-- ===== src/Engine/Queue/Settlement.antt =====
-- backend/queue/logic/engine/queue.go: Ack, on every path.
use ryuk_dpq.Base.{
  ℕ, ◌≡◌, ◌≢◌, refl, ◌==◌, ==_iff, Bool-cases, Option-cases, ◌⊎◌, inl, inr, arith, ◌∷◌, Option,
  none, some,
}
use ryuk_dpq.Base.Int.{pos, ◌-ℤ◌}
use ryuk_dpq.Engine.Message.{
  Receipt, EngineError, lease_expired, terminal_ack, Result, ok, err, ok-injective,
}
use ryuk_dpq.Engine.State.{Slot}
use ryuk_dpq.Engine.Deliver
use ryuk_dpq.Engine.Accounts.{IsWellFormed, IsGauged}
use ryuk_dpq.Engine.Accounts.Gauges.{Moved-IsGauged}
use ryuk_dpq.Engine.Lifecycle.End.{Acks, acked, ack_correct}
use ryuk_dpq.Engine.Queue.{Queue, terminal_entry, find_slot, put_slot, slot, write_slot, ack}
use ryuk_dpq.Engine.Queue.Admission.{AreSound, slot-AreSound, put_slot-AreSound}

pub Result-cases :
    {A : Type 0} (o : Result A) → ((e : EngineError) × (o ≡ err e)) ⊎ ((a : A) × (o ≡ ok a))
Result-cases (ok a) = inr (a, refl)
Result-cases (err e) = inl (e, refl)

acked-IsGauged :
    (s t : Slot) (r : Receipt) (o : Result Slot)
    → o ≡ ok t
    → IsGauged s
    → Acks s r o
    → IsWellFormed t × IsGauged t
acked-IsGauged s t r (err e) n g a = absurd (err_ok n)
  where
    err_ok : {e : EngineError} {t : Slot} → err e ≡ ok t → ⊥
    err_ok h = cc
acked-IsGauged s t r (ok u) n g (acked l w h p gone step) =
    let e : u ≡ t = ok-injective n in rw (← e) (step.well, Moved-IsGauged step.moved tt g)

module _ {F : Type 0} where
  -- What an acknowledgement ends in. A receipt of another run of the node, or one that its slot
  -- refuses, leaves the depth and the log as they were. Any other ends its lease: there is one message
  -- less, and the log says so.
  pub data Settles (q : Queue F) (r : Receipt) : Option EngineError × Queue F → Type 0 where
    foreign : r.incarnation ≢ q.incarnation → Settles q r (some lease_expired, q)
    refused :
        (e : EngineError) (u : Queue F)
        → r.incarnation ≡ q.incarnation
        → Acks (slot q r.slot).0 r (err e)
        → u.depth ≡ q.depth
        → u.journal ≡ q.journal
        → u.slots ≡ (slot q r.slot).1.slots
        → Settles q r (some e, u)
    settled :
        (t : Slot) (u : Queue F)
        → r.incarnation ≡ q.incarnation
        → Acks (slot q r.slot).0 r (ok t)
        → u.depth ≡ q.depth -ℤ pos 1
        → u.journal ≡ terminal_entry r.slot r.message_id terminal_ack ∷ q.journal
        → u.slots ≡ put_slot t (slot q r.slot).1.slots
        → Settles q r (none, u)

  slot_frame :
      (q : Queue F) (i : ℕ) → ((slot q i).1.depth ≡ q.depth) × ((slot q i).1.journal ≡ q.journal)
  unfolding slot
  slot_frame q i = elim (Option-cases (find_slot i q.slots)) [
    | inl e ↦ rw (e, slot) (refl, refl)
    | inr (s, e) ↦ rw (e, slot) (refl, refl)
  ]

  -- In a queue whose slots are all well formed with correct gauges, Ack ends in one of these, and the
  -- slots are so after it.
  pub ack-Settles :
      (q : Queue F) (r : Receipt)
      → AreSound q.slots
      → Settles q r (ack q r) × AreSound (ack q r).1.slots
  unfolding ack write_slot
  ack-Settles q r a =
      let (sound, rest) = slot-AreSound q r.slot a in
      let (d, n) = slot_frame q r.slot in
      let right = ack_correct (slot q r.slot).0 r sound.0 in
      elim (Bool-cases (r.incarnation == q.incarnation)) [
        | inr f ↦ rw (ack, f) (foreign (λ e. ground arith), a)
        | inl own ↦
            let same = (==_iff r.incarnation q.incarnation).0 own in
            elim (Result-cases (Deliver.ack (slot q r.slot).0 r)) [
              | inl (e, x) ↦ rw (ack, own, x) (refused e _ same (rw (← x) right) d n refl, rest)
              | inr (t, x) ↦
                  rw (ack, own, x)
                    (
                      settled t _ same (rw (← x) right) refl refl refl,
                      put_slot-AreSound _ t rest (acked-IsGauged _ t r _ x sound.1 right),
                    )
            ]
      ]
