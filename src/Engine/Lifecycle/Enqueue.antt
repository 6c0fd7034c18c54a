-- ===== src/Engine/Lifecycle/Enqueue.antt =====
-- slot.enqueue: a new message is made ready, or is held back until its delivery time.
use ryuk_dpq.Base.{eq_iff, str_eq, sym, ◌≤◌, ℕ, ◌+◌, ◌≡◌, refl, ap, not, ◌&&◌, arith, if_cases}
use ryuk_dpq.Engine.Message.{Message, after, is_zero_time, add64}
use ryuk_dpq.Engine.State.{Slot, absent, ready, delayed, move, refresh_hint}
use ryuk_dpq.Engine.Bands.{admit}
use ryuk_dpq.Engine.Deliver.{enqueue, hold}
use ryuk_dpq.Engine.Accounts.{
  IsStable, held, IsWellFormed, IsGauged, has_id, ready_total, flight_total, delayed_total,
}
use ryuk_dpq.Engine.Accounts.Same.{refresh_hint-Same}
use ryuk_dpq.Engine.Accounts.Changes.{stats-IsWellFormed}
use ryuk_dpq.Engine.Accounts.Gauges.{
  Moved-held, Moved-IsGauged, SameGauges, SameGauges-refl, SameGauges_of_eq,
}
use ryuk_dpq.Engine.Accounts.Operations.{admit-Gains, hold-delay, hold-IsWellFormed}
use ryuk_dpq.Engine.Lifecycle.{Transition, Transition-Same}
use ryuk_dpq.Engine.Lifecycle.Take.{InOrder, has_id-IsStable}

abbrev counted : Slot → Slot
counted s = record s { st = record (s.st) { enqueued = add64 s.st.enqueued 1 } }

module _ (s : Slot) (m : Message) (v : IsWellFormed s) where
  counted_gauges : SameGauges s.st (counted s).st
  counted_gauges = record { ready = λ b. refl; inflight = refl; delayed = refl; bytes = refl }

  held_back : Transition s (hold (counted s) m absent) m absent delayed
  unfolding hold move ready_total flight_total delayed_total
  held_back = record {
    well = hold-IsWellFormed (counted s) m absent (stats-IsWellFormed s _ v);
    moved = record {
      ready = λ w i. omega arith;
      leases = λ w i. omega arith;
      delay = λ w i. omega (arith, hold-delay (counted s) m absent w);
      base = (counted s).st;
      before = counted_gauges;
      gauges = SameGauges-refl _;
    };
  }

  made_ready :
      Transition s (refresh_hint (admit (move (counted s) m absent ready) m)) m absent ready
  unfolding move ready_total flight_total delayed_total
  made_ready =
      let s1 = move (counted s) m absent ready in
      let g = admit-Gains s1 m (stats-IsWellFormed s _ v) in
      Transition-Same
        (record {
          well = g.well;
          moved = record {
            ready = λ w i. omega (arith, g.ready w);
            leases = λ w i. omega (arith, g.leases w);
            delay = λ w i. omega (arith, g.delay w);
            base = (counted s).st;
            before = counted_gauges;
            gauges = SameGauges_of_eq g.st;
          };
        })
        (refresh_hint-Same (admit s1 m))

-- On a well-formed slot with correct gauges, enqueue keeps both, and the slot holds what it held and
-- the new message, by every measure that does not read the attempts or the delivery time.
pub enqueue_correct :
    (s : Slot) (m : Message) (now : ℕ)
    → IsWellFormed s
    → IsGauged s
    → IsWellFormed (enqueue s m now)
      × IsGauged (enqueue s m now)
      × ((w : Message → ℕ) → IsStable w → held w (enqueue s m now) ≡ held w s + w m)
unfolding enqueue
enqueue_correct s m now v g =
    if_cases
      (λ t.
        IsWellFormed t × IsGauged t × ((w : Message → ℕ) → IsStable w → held w t ≡ held w s + w m))
      (not (is_zero_time m.deliver_after) && after m.deliver_after now)
      (λ later.
        let t = held_back s m v in
        (t.well, Moved-IsGauged t.moved tt g, λ w i. omega (arith, Moved-held t.moved w i)))
      (λ due.
        let t = made_ready s m v in
        (t.well, Moved-IsGauged t.moved tt g, λ w i. omega (arith, Moved-held t.moved w i)))

-- Enqueueing a message under an identifier that the slot does not hold keeps a slot in order.
pub enqueue-InOrder :
    (s : Slot) (m : Message) (now : ℕ)
    → InOrder s
    → held (has_id m.id) s ≡ 0
    → InOrder (enqueue s m now)
enqueue-InOrder s m now o new =
    let (v, g, h) = enqueue_correct s m now o.well o.gauged in
    record {
      well = v;
      gauged = g;
      unique = λ k.
          if_cases
            (λ x.
              held (has_id k) (enqueue s m now) ≡ held (has_id k) s + x
              → held (has_id k) (enqueue s m now) ≤ 1)
            (str_eq m.id k)
            (λ e p. omega (arith, p, ap (λ i. held (has_id i) s) (sym ((eq_iff m.id k).0 e)), new))
            (λ e p. omega (arith, p, o.unique k)) (h (has_id k) (has_id-IsStable k));
    }
