-- ===== src/Engine/Migrate/Copying.antt =====
-- The copy of a slot is everything that the slot holds.
use ryuk_dpq.Base.{ℕ, ◌≡◌, refl, String, List, [], ◌∷◌, ◌++◌, arith, total, total-append}
use ryuk_dpq.Engine.Deque.{all}
use ryuk_dpq.Engine.Message.{Message}
use ryuk_dpq.Engine.State.{Slot, Group, Lease}
use ryuk_dpq.Engine.Heaps.{DelayEntry}
use ryuk_dpq.Engine.Handoff.{lease_msgs, group_msgs, delay_msgs, copy_all}
use ryuk_dpq.Engine.Accounts.{
  group_total, lease_weight, delay_weight, ready_total, flight_total, delayed_total, held,
}

pub total-lease_msgs :
    (w : Message → ℕ) (ls : List (String × Lease))
    → total w (lease_msgs ls) ≡ total (lease_weight w) ls
unfolding lease_msgs
total-lease_msgs w [] = refl
total-lease_msgs w ((k, l) ∷ ls) = omega (arith, total-lease_msgs w ls)

pub total-delay_msgs :
    (w : Message → ℕ) (ds : List DelayEntry) → total w (delay_msgs ds) ≡ total (delay_weight w) ds
unfolding delay_msgs
total-delay_msgs w [] = refl
total-delay_msgs w (d ∷ ds) = omega (arith, total-delay_msgs w ds)

total-group_msgs :
    (w : Message → ℕ) (store : ℕ → Group) (gs : List (String × ℕ))
    → total w (group_msgs store gs) ≡ total (group_total w store) gs
unfolding group_msgs
total-group_msgs w store [] = refl
total-group_msgs w store ((gid, a) ∷ gs) =
    omega (
      arith,
      total-append w (all (store a).msgs) (group_msgs store gs),
      total-group_msgs w store gs,
    )

-- The copy of a slot is everything that it holds.
pub total-copy_all : (w : Message → ℕ) (s : Slot) → total w (copy_all s) ≡ held w s
unfolding copy_all ready_total flight_total delayed_total
total-copy_all w s = omega (
  arith,
  total-append w (lease_msgs s.inflight ++ group_msgs s.store s.groups) (delay_msgs s.delayed),
  total-append w (lease_msgs s.inflight) (group_msgs s.store s.groups),
  total-lease_msgs w s.inflight,
  total-group_msgs w s.store s.groups,
  total-delay_msgs w s.delayed,
)
