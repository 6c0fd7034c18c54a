-- ===== src/Engine/Lifecycle/Lend.antt =====
-- slot.take: the popped message is leased, and its group is locked.
use ryuk_dpq.Base.{
  ℕ, ◌+◌, ◌≡◌, refl, true, false, none, some, List, [], ◌∷◌, ◌++◌, inl, inr, String, arith,
  Option-cases, total, All, eq_iff,
}
use ryuk_dpq.Base.Int.{ℤ}
use ryuk_dpq.Base.Dict.{lookup, total-delete}
use ryuk_dpq.Engine.Deque.{Deque, all}
use ryuk_dpq.Engine.Deque.Laws.{IsValid}
use ryuk_dpq.Engine.Message.{Message, message_zero, Receipt, expired, add32, add64, add_time}
use ryuk_dpq.Engine.State.{Slot, Lease, ready, in_flight, move}
use ryuk_dpq.Engine.Heaps.{push_timer}
use ryuk_dpq.Engine.Bands.{set_group}
use ryuk_dpq.Engine.Deliver.{lend}
use ryuk_dpq.Engine.Accounts.{
  IsStable, ready_total, flight_total, delayed_total, held, lease_weight, has_id, IsListed,
  IsWellFormed, IsUnique,
}
use ryuk_dpq.Engine.Accounts.Same.{refresh_hint-Same}
use ryuk_dpq.Engine.Accounts.Changes.{
  IsFree, with_msgs, with_lock, with_msgs-IsWellFormed, with_lock-IsWellFormed, with_lock-ready,
  stats-IsWellFormed,
}
use ryuk_dpq.Engine.Accounts.Steps.Leases.{with_lease, with_lease-IsWellFormed, with_lease-flight}
use ryuk_dpq.Engine.Accounts.Gauges.{Moved, SameGauges-refl}
use ryuk_dpq.Engine.Lifecycle.{Transition, Transition-Same}
use ryuk_dpq.Engine.Lifecycle.Drops.{popped-ready}

-- An identifier that a ready message has is on no lease, if identifiers are held once.
pub not_leased :
    (s : Slot) (k : String)
    → IsWellFormed s
    → flight_total (has_id k) s ≡ 0
    → lookup k s.inflight ≡ none
unfolding flight_total
not_leased s k v e = elim (Option-cases (lookup k s.inflight)) [
  | inl n ↦ n
  | inr (l, h) ↦ absurd (
      ground (
        arith,
        total-delete (lease_weight (has_id k)) k l s.inflight v.leases_keyed h,
        v.ids k l h,
        eq_iff l.msg.id k,
      ))
]

-- The popped message `m` of group `a` in `u` is leased: the slot that `lend` makes.
module _ (u : Slot) (v : IsWellFormed u) (a : ℕ) (here : IsListed u a)
    (open_here : (u.store a).locked ≡ false) (unique : IsUnique u) (m : Message) (d : Deque Message)
    (head : all (u.store a).msgs ≡ m ∷ all d) (ok : IsValid d) (now : ℕ) (vis : ℤ) where
  abbrev pub leased_msg : Message
  leased_msg = record m { attempts = add32 m.attempts 1 }

  abbrev pub new_lease : Lease
  new_lease = record {
    msg = leased_msg;
    g = a;
    epoch = add64 u.epoch_seq 1;
    deadline = add_time now vis;
  }

  abbrev pub locked_slot : Slot
  locked_slot = with_lock (with_msgs u a d) a true

  abbrev pub leased_slot : Slot
  leased_slot = with_lease locked_slot m.id new_lease (add64 u.epoch_seq 1) (
      push_timer (record { id = m.id; epoch = add64 u.epoch_seq 1; at = add_time now vis })
        u.timers)

  pub popped_well : IsWellFormed (with_msgs u a d)
  popped_well = with_msgs-IsWellFormed u v a d here ok

  pub locked_well : IsWellFormed locked_slot
  locked_well = with_lock-IsWellFormed (with_msgs u a d) popped_well a true (inl refl)

  pub is_new : lookup m.id u.inflight ≡ none
  is_new = not_leased u m.id v (
      ground
        (arith, unique m.id, popped-ready u v a here m d head ok (has_id m.id), eq_iff m.id m.id))

  pub locked-IsFree : IsFree locked_slot a
  unfolding set_group
  locked-IsFree k l h e = ground (arith, v.locks k l h)

  pub leased_well : IsWellFormed leased_slot
  unfolding set_group
  leased_well =
      with_lease-IsWellFormed locked_slot locked_well m.id new_lease is_new (ground arith)
        (ground (arith, here)) locked-IsFree refl (add64 u.epoch_seq 1) _

  pub leased-Moved :
      Moved u (move leased_slot leased_msg ready in_flight) leased_msg ready in_flight
  unfolding move ready_total flight_total delayed_total set_group
  leased-Moved = record {
    ready = λ w i. omega (
      arith,
      popped-ready u v a here m d head ok w,
      with_lock-ready (with_msgs u a d) popped_well a w true,
      i m (add32 m.attempts 1) m.deliver_after,
    );
    leases = λ w i. omega (
      arith,
      with_lease-flight locked_slot locked_well m.id new_lease is_new (ground arith)
          (ground (arith, here)) locked-IsFree refl (add64 u.epoch_seq 1) [] w,
    );
    delay = λ w i. omega arith;
    base = u.st;
    before = SameGauges-refl u.st;
    gauges = SameGauges-refl _;
  }

  pub lend-Transition :
      Transition u (lend (with_msgs u a d) a m now vis).2 leased_msg ready in_flight
  unfolding lend set_group move
  lend-Transition =
      Transition-Same (record { well = stats-IsWellFormed _ _ leased_well; moved = leased-Moved })
        (refresh_hint-Same (move leased_slot leased_msg ready in_flight))

-- What a delivery does. Group `a` was unlocked; its messages were the expired ones `ds`, then the
-- delivered `m`, then those that are left. The copy that goes out has one attempt more, and stands
-- in a lease under a new epoch, which the receipt names; the group is locked.
pub record Delivery (s : Slot) (now : ℕ) (vis : ℤ) (out : Message) (r : Receipt) (t : Slot)
    : Type 0 where
  pub a : ℕ
  pub m : Message
  pub ds : List Message
  pub was_open : (s.store a).locked ≡ false
  pub order : all (s.store a).msgs ≡ ds ++ m ∷ all (t.store a).msgs
  pub gone : All (λ x. expired x now ≡ true) ds
  pub live : expired m now ≡ false
  pub copy : out ≡ record m { attempts = add32 m.attempts 1 }
  pub leased :
      lookup m.id t.inflight
      ≡ some (record { msg = out; g = a; epoch = r.epoch; deadline = add_time now vis })
  pub receipt :
      r ≡ record { slot = s.id; message_id = m.id; epoch = add64 s.epoch_seq 1; incarnation = 0 }
  pub shut : (t.store a).locked ≡ true
  pub kept : (w : Message → ℕ) → IsStable w → held w s ≡ held w t + total w ds
