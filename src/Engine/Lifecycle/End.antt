-- ===== src/Engine/Lifecycle/End.antt =====
-- slot.ack, slot.nack and slot.retire: a lease ends, and its message leaves, waits or is ready again.
use ryuk_dpq.Base.{
  ℕ, ◌≡◌, ◌≢◌, refl, ◌∙◌, ap, Bool, true, false, ◌&&◌, Option, none, some, inl, inr, String, arith,
  ◌==◌, ==_iff, leb, if_cases, Bool-cases, Option-cases, eq_iff,
}
use ryuk_dpq.Base.Int.{ℤ, is_positive}
use ryuk_dpq.Base.Dict.{lookup, lookup-delete}
use ryuk_dpq.Engine.Message.{
  Message, Receipt, Result, ok, err, not_in_flight, lease_expired, ok-injective, add64, expired,
}
use ryuk_dpq.Engine.State.{
  Slot, Lease, absent, ready, in_flight, delayed, move, refresh_hint, leave, arrive,
}
use ryuk_dpq.Engine.Bands.{unlock}
use ryuk_dpq.Engine.Deliver.{settle, ack}
use ryuk_dpq.Engine.Timers.{Retired, count_expired, count_dead, retire, nack}
use ryuk_dpq.Engine.Accounts.{IsWellFormed}
use ryuk_dpq.Engine.Accounts.Same.{refresh_hint-Same}
use ryuk_dpq.Engine.Accounts.Steps.Leases.{without_lease}
use ryuk_dpq.Engine.Accounts.Gauges.{SameGauges}
use ryuk_dpq.Engine.Lifecycle.{Transition, Transition-Same}
use ryuk_dpq.Engine.Lifecycle.Leave.{
  unlocked_base, ended-Transition, delayed-Transition, put_back-Transition,
}

-- What `retire` decides, in the order of the code: an expired message is dropped; one that is out of
-- attempts leaves for the dead letters, if there are any; one with a delay waits; any other is ready
-- again. In each case the rest of the slot is unharmed.
pub data Retires (s : Slot) (m : Message) (now max : ℕ) (delay : ℤ) (dlq : Bool) (o : Retired)
    : Type 0 where
  drops :
      expired m now ≡ true
      → o.dead ≡ none
      → o.back ≡ false
      → Transition s o.slot m in_flight absent
      → Retires s m now max delay dlq o
  gives_up :
      expired m now ≡ false
      → leb max m.attempts ≡ true
      → dlq ≡ true
      → o.dead ≡ some m
      → o.back ≡ false
      → Transition s o.slot m in_flight absent
      → Retires s m now max delay dlq o
  waits :
      expired m now ≡ false
      → (leb max m.attempts && dlq) ≡ false
      → is_positive delay ≡ true
      → o.dead ≡ none
      → o.back ≡ true
      → Transition s o.slot m in_flight delayed
      → Retires s m now max delay dlq o
  returns :
      expired m now ≡ false
      → (leb max m.attempts && dlq) ≡ false
      → is_positive delay ≡ false
      → o.dead ≡ none
      → o.back ≡ true
      → Transition s o.slot m in_flight ready
      → Retires s m now max delay dlq o

both : (a b : Bool) → (a && b) ≡ true → (a ≡ true) × (b ≡ true)
both a b h = ground arith

-- Retiring the lease of a slot in order, once it has left the map, ends in one of the four ways.
pub retire-Retires :
    (s : Slot) (k : String) (l : Lease) (now max : ℕ) (delay : ℤ) (dlq : Bool)
    → IsWellFormed s
    → lookup k s.inflight ≡ some l
    → Retires s l.msg now max delay dlq (retire (without_lease s k) l now max delay dlq)
unfolding retire count_expired count_dead move
retire-Retires s k l now max delay dlq v there =
    if_cases P (expired l.msg now)
      (λ old. drops old refl refl (ended-Transition s v k l there _ counts))
      (λ live.
        if_cases P (leb max l.msg.attempts && dlq)
          (λ over.
            let (e, q) = both (leb max l.msg.attempts) dlq over in
            gives_up live e q refl refl (ended-Transition s v k l there _ counts))
          (λ more.
            if_cases P (is_positive delay)
              (λ later. waits live more later refl refl (delayed-Transition s v k l there _))
              (λ at_once. returns live more at_once refl refl (put_back-Transition s v k l there))))
  where
    counts :
        {e d : ℕ}
        → SameGauges
            (arrive absent l.msg (leave in_flight l.msg s.st))
            (record (arrive absent l.msg (leave in_flight l.msg s.st)) {
              expired = e;
              dead_lettered = d;
            })
    counts = record { ready = λ b. refl; inflight = refl; delayed = refl; bytes = refl }

    P : Retired → Type 0
    P o = Retires s l.msg now max delay dlq o

-- The outcomes of an acknowledgement. One that names no lease, or an older epoch of the lease, is
-- refused. Any other ends the lease: the message has left the slot, and nothing else has.
pub data Acks (s : Slot) (r : Receipt) : Result Slot → Type 0 where
  unknown : lookup r.message_id s.inflight ≡ none → Acks s r (err not_in_flight)
  stale :
      (l : Lease)
      → lookup r.message_id s.inflight ≡ some l
      → l.epoch ≢ r.epoch
      → Acks s r (err lease_expired)
  acked :
      (l : Lease) (t : Slot)
      → lookup r.message_id s.inflight ≡ some l
      → l.epoch ≡ r.epoch
      → lookup r.message_id t.inflight ≡ none
      → Transition s t l.msg in_flight absent
      → Acks s r (ok t)

-- The slot that `settle` unlocks.
abbrev base_settled : Slot → Receipt → Lease → Slot
base_settled s r l =
    let t = arrive absent l.msg (leave in_flight l.msg s.st) in
    record (without_lease s r.message_id) { st = record t { acked = add64 t.acked 1 } }

-- On a well-formed slot, `ack` is refused where there is no lease for the message or its epoch is
-- another; otherwise the lease is gone, and its message and nothing else has left the slot.
pub ack_correct : (s : Slot) (r : Receipt) → IsWellFormed s → Acks s r (ack s r)
unfolding ack settle move
ack_correct s r v = elim (Option-cases (lookup r.message_id s.inflight)) [
  | inl n ↦ rw (n, ack) (unknown n)
  | inr (l, e) ↦ elim (Bool-cases (l.epoch == r.epoch)) [
    | inr older ↦ rw (e, ack, older) (stale l e (λ p. ground arith))
    | inl now ↦
        let t0 = base_settled s r l in
        let g = unlocked_base s v r.message_id l e t0.st s.delayed in
        let f = refresh_hint-Same (unlock t0 l.g) in
        rw (e, ack, now)
          (acked l _ e ((==_iff _ _).0 now)
            (ap (lookup r.message_id) (f.inflight ∙ g.inflight)
              ∙ lookup-delete r.message_id r.message_id s.inflight
              ∙ ground (arith, eq_iff r.message_id r.message_id))
            (Transition-Same
              (ended-Transition s v r.message_id l e t0.st
                (record { ready = λ b. refl; inflight = refl; delayed = refl; bytes = refl }))
              f))
  ]
]

-- On a well-formed slot, a lease can be acknowledged once: a second acknowledgement with the same receipt finds no lease.
pub ack_twice :
    (s t : Slot) (r : Receipt) → IsWellFormed s → ack s r ≡ ok t → ack t r ≡ err not_in_flight
unfolding ack
ack_twice s t r v e = once (ack s r) (ack_correct s r v) e
  where
    once : (o : Result Slot) → Acks s r o → o ≡ ok t → ack t r ≡ err not_in_flight
    once (err x) a p = cc
    once (ok u) (acked l w h n gone tr) p =
        let q : u ≡ t = ok-injective p in rw (← q) (rw (gone, ack))

-- A negative acknowledgement is refused as a positive one is, and otherwise retires the lease.
pub data Nacks (s : Slot) (r : Receipt) (now max : ℕ) (delay : ℤ) (dlq : Bool)
    : Result (Option Message × Slot) → Type 0 where
  unknown : lookup r.message_id s.inflight ≡ none → Nacks s r now max delay dlq (err not_in_flight)
  stale :
      (l : Lease)
      → lookup r.message_id s.inflight ≡ some l
      → l.epoch ≢ r.epoch
      → Nacks s r now max delay dlq (err lease_expired)
  nacked :
      (l : Lease) (o : Retired)
      → lookup r.message_id s.inflight ≡ some l
      → l.epoch ≡ r.epoch
      → Retires s l.msg now max delay dlq o
      → Nacks s r now max delay dlq (ok (o.dead, refresh_hint o.slot))

-- On a well-formed slot, `nack` is refused where there is no lease for the message or its epoch is
-- another, and otherwise retires the lease as `Retires` says.
pub nack_correct :
    (s : Slot) (r : Receipt) (delay : ℤ) (now max : ℕ) (dlq : Bool)
    → IsWellFormed s
    → Nacks s r now max delay dlq (nack s r delay now max dlq)
unfolding nack
nack_correct s r delay now max dlq v = elim (Option-cases (lookup r.message_id s.inflight)) [
  | inl n ↦ rw (n, nack) (unknown n)
  | inr (l, e) ↦ elim (Bool-cases (l.epoch == r.epoch)) [
    | inr older ↦ rw (e, nack, older) (stale l e (λ p. ground arith))
    | inl now_here ↦
        rw (e, nack, now_here)
          (nacked l (retire (without_lease s r.message_id) l now max delay dlq) e
            ((==_iff _ _).0 now_here) (retire-Retires s r.message_id l now max delay dlq v e))
  ]
]
