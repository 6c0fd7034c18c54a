-- ===== src/Engine/Accounts/Steps/Leases.antt =====
-- A lease comes into the map of leases and goes out of it.
use ryuk_dpq.Base.{ℕ, ◌+◌, ◌≡◌, true, none, some, List, String, arith, eq_iff}
use ryuk_dpq.Base.Dict.{
  lookup, put, delete, lookup-put, lookup-delete, put-IsKeyed, delete-IsKeyed, total-put,
  total-delete,
}
use ryuk_dpq.Engine.Message.{Message}
use ryuk_dpq.Engine.Heaps.{TimerEntry}
use ryuk_dpq.Engine.State.{Slot, Lease}
use ryuk_dpq.Engine.Accounts.{flight_total, lease_weight, IsListed, IsWellFormed}
use ryuk_dpq.Engine.Accounts.Changes.{IsFree}

abbrev pub with_lease : Slot → String → Lease → ℕ → List TimerEntry → Slot
with_lease s k l epoch timers = record s {
  epoch_seq = epoch;
  inflight = put k l s.inflight;
  timers = timers;
}

abbrev pub without_lease : Slot → String → Slot
without_lease s k = record s { inflight = delete k s.inflight }

module _ (s : Slot) (v : IsWellFormed s) (k : String) (l : Lease) where
  module _ (new_key : lookup k s.inflight ≡ none) (shut : (s.store l.g).locked ≡ true)
      (here : IsListed s l.g) (free : IsFree s l.g) (named : l.msg.id ≡ k) (epoch : ℕ)
      (timers : List TimerEntry) where
    pub with_lease-IsWellFormed : IsWellFormed (with_lease s k l epoch timers)
    with_lease-IsWellFormed = record {
      valid = v.valid;
      keyed = v.keyed;
      named = v.named;
      below = v.below;
      listed = v.listed;
      leases_keyed = put-IsKeyed k l s.inflight v.leases_keyed;
      locks = λ j n h. ground (arith, lookup-put k j l s.inflight, v.locks j n);
      lists = λ j n h. ground (arith, lookup-put k j l s.inflight, v.lists j n);
      apart = λ i j n o p q e. ground (
        arith,
        lookup-put k i l s.inflight,
        lookup-put k j l s.inflight,
        eq_iff k i,
        eq_iff k j,
        v.apart i j n o,
        free i n,
        free j o,
      );
      ids = λ j n h. ground (arith, lookup-put k j l s.inflight, eq_iff k j, v.ids j n);
    }

    pub with_lease-flight :
        (w : Message → ℕ)
        → flight_total w (with_lease s k l epoch timers) ≡ flight_total w s + w l.msg
    unfolding flight_total
    with_lease-flight w = total-put (lease_weight w) k l s.inflight new_key

  module _ (there : lookup k s.inflight ≡ some l) where
    pub without_lease-IsWellFormed : IsWellFormed (without_lease s k)
    without_lease-IsWellFormed = record {
      valid = v.valid;
      keyed = v.keyed;
      named = v.named;
      below = v.below;
      listed = v.listed;
      leases_keyed = delete-IsKeyed k s.inflight v.leases_keyed;
      locks = λ j n h. ground (arith, lookup-delete k j s.inflight, v.locks j n);
      lists = λ j n h. ground (arith, lookup-delete k j s.inflight, v.lists j n);
      apart = λ i j n o p q e.
          ground
            (arith, lookup-delete k i s.inflight, lookup-delete k j s.inflight, v.apart i j n o);
      ids = λ j n h. ground (arith, lookup-delete k j s.inflight, v.ids j n);
    }

    -- No other lease is on the group of the one that went.
    pub without_lease-IsFree : IsFree (without_lease s k) l.g
    without_lease-IsFree j n h e =
        ground (arith, lookup-delete k j s.inflight, eq_iff k j, v.apart k j l n there)

    pub without_lease-flight :
        (w : Message → ℕ) → flight_total w s ≡ flight_total w (without_lease s k) + w l.msg
    unfolding flight_total
    without_lease-flight w = total-delete (lease_weight w) k l s.inflight v.leases_keyed there
