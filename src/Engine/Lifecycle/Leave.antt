-- ===== src/Engine/Lifecycle/Leave.antt =====
-- A lease leaves the map, and its message goes on to another state.
use ryuk_dpq.Base.{ℕ, ◌≡◌, refl, some, List, String, arith}
use ryuk_dpq.Base.Dict.{lookup}
use ryuk_dpq.Engine.Heaps.{DelayEntry}
use ryuk_dpq.Engine.State.{
  Slot, SlotStats, Lease, absent, ready, in_flight, delayed, move, leave, arrive,
}
use ryuk_dpq.Engine.Bands.{set_group, unlock}
use ryuk_dpq.Engine.Deliver.{hold}
use ryuk_dpq.Engine.Timers.{count_requeued, put_back}
use ryuk_dpq.Engine.Accounts.{ready_total, flight_total, delayed_total, IsListed, IsWellFormed}
use ryuk_dpq.Engine.Accounts.Changes.{stats-IsWellFormed, delayed-IsWellFormed}
use ryuk_dpq.Engine.Accounts.Steps.Leases.{
  without_lease, without_lease-IsWellFormed, without_lease-IsFree, without_lease-flight,
}
use ryuk_dpq.Engine.Accounts.Gauges.{
  SameGauges, SameGauges-refl, SameGauges-trans, SameGauges_of_eq,
}
use ryuk_dpq.Engine.Accounts.Operations.{Gains, nothing, prepended, unlock-Gains, hold-delay}
use ryuk_dpq.Engine.Lifecycle.{Transition}

module _ (s : Slot) (v : IsWellFormed s) (k : String) (l : Lease)
    (there : lookup k s.inflight ≡ some l) where
  -- The slot without the lease, with other counters and another delay heap.
  abbrev pub base : SlotStats → List DelayEntry → Slot
  base t ds = record (without_lease s k) { st = t; delayed = ds }

  pub base-IsWellFormed : (t : SlotStats) (ds : List DelayEntry) → IsWellFormed (base t ds)
  base-IsWellFormed t ds =
      delayed-IsWellFormed _ ds (stats-IsWellFormed _ t (without_lease-IsWellFormed s v k l there))

  pub unlocked_base :
      (t : SlotStats) (ds : List DelayEntry) → Gains (base t ds) (unlock (base t ds) l.g) nothing
  unlocked_base t ds =
      unlock-Gains (base t ds) l.g (base-IsWellFormed t ds) (v.lists k l there)
        (without_lease-IsFree s v k l there)

  -- The message leaves the slot.
  pub ended-Transition :
      (t : SlotStats)
      → SameGauges (arrive absent l.msg (leave in_flight l.msg s.st)) t
      → Transition s (unlock (base t s.delayed) l.g) l.msg in_flight absent
  unfolding ready_total flight_total delayed_total
  ended-Transition t same =
      let g = unlocked_base t s.delayed in
      record {
        well = g.well;
        moved = record {
          ready = λ w i. omega (arith, g.ready w);
          leases = λ w i. omega (arith, g.leases w, without_lease-flight s v k l there w);
          delay = λ w i. omega (arith, g.delay w);
          base = s.st;
          before = SameGauges-refl s.st;
          gauges = SameGauges-trans same (SameGauges_of_eq g.st);
        };
      }

  -- The message waits for its delivery time.
  pub delayed-Transition :
      (at : ℕ)
      → let m = record (l.msg) { deliver_after = at } in
        Transition s
          (unlock (count_requeued (hold (without_lease s k) m in_flight)) l.g)
          l.msg
          in_flight
          delayed
  unfolding ready_total flight_total delayed_total hold move count_requeued leave arrive
  delayed-Transition at =
      let m = record (l.msg) { deliver_after = at } in
      let u = count_requeued (hold (without_lease s k) m in_flight) in
      let g = unlocked_base u.st u.delayed in
      record {
        well = g.well;
        moved = record {
          ready = λ w i. omega (arith, g.ready w);
          leases = λ w i. omega (arith, g.leases w, without_lease-flight s v k l there w);
          delay = λ w i. omega (
            arith,
            g.delay w,
            hold-delay (without_lease s k) m in_flight w,
            i l.msg l.msg.attempts at,
          );
          base = s.st;
          before = SameGauges-refl s.st;
          gauges =
              SameGauges-trans
                (record { ready = λ b. refl; inflight = refl; delayed = refl; bytes = refl })
                (SameGauges_of_eq g.st);
        };
      }

  -- The message goes back to the front of its group.
  pub put_back-Transition :
      Transition s
        (unlock (count_requeued (put_back (without_lease s k) l.g l.msg)) l.g)
        l.msg
        in_flight
        ready
  unfolding ready_total flight_total delayed_total put_back move count_requeued leave arrive
      set_group
  put_back-Transition =
      let b = without_lease s k in
      let p =
        prepended b (without_lease-IsWellFormed s v k l there) l.g (v.lists k l there) l.msg in
      let u = count_requeued (put_back b l.g l.msg) in
      let here : IsListed u l.g = ground (arith, v.lists k l there) in
      let g =
        unlock-Gains u l.g (stats-IsWellFormed _ u.st p.well) here
          (without_lease-IsFree s v k l there) in
      record {
        well = g.well;
        moved = record {
          ready = λ w i. omega (arith, g.ready w, p.ready w);
          leases = λ w i. omega (arith, g.leases w, without_lease-flight s v k l there w);
          delay = λ w i. omega (arith, g.delay w);
          base = s.st;
          before = SameGauges-refl s.st;
          gauges =
              SameGauges-trans
                (record { ready = λ b. refl; inflight = refl; delayed = refl; bytes = refl })
                (SameGauges_of_eq g.st);
        };
      }
