-- ===== src/Engine/Heaps.antt =====
-- backend/queue/logic/engine/heaps.go: leases by deadline and delayed messages by delivery time.
-- container/heap is modelled by its contract: a heap is the list of its entries in the order in
-- which Pop returns them, earliest `at` first. Push puts an entry behind those that are not later.
use ryuk_dpq.Base.{ℕ, ◌+◌, ◌≡◌, String, List, [], ◌∷◌, if◌then◌else◌, total, arith}
use ryuk_dpq.Engine.Message.{Message, before}

pub record TimerEntry : Type 0 where
  pub id : String
  pub epoch : ℕ
  pub at : ℕ

pub record DelayEntry : Type 0 where
  pub msg : Message
  pub at : ℕ

unfoldable pub push_timer : TimerEntry → List TimerEntry → List TimerEntry
push_timer e [] = e ∷ []
push_timer e (t ∷ ts) = if before e.at t.at then e ∷ t ∷ ts else t ∷ push_timer e ts

unfoldable pub push_delay : DelayEntry → List DelayEntry → List DelayEntry
push_delay e [] = e ∷ []
push_delay e (t ∷ ts) = if before e.at t.at then e ∷ t ∷ ts else t ∷ push_delay e ts

pub total-push_delay :
    (w : DelayEntry → ℕ) (e : DelayEntry) (ts : List DelayEntry)
    → total w (push_delay e ts) ≡ total w ts + w e
unfolding push_delay
total-push_delay w e [] = omega arith
total-push_delay w e (t ∷ ts) = ground (arith, total-push_delay w e ts)
