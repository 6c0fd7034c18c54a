-- ===== src/Engine/Accounts/Gauges.antt =====
-- One transition of one message keeps the gauges a partition.
use ryuk_dpq.Base.{ℕ, ◌+◌, ◌≡◌, refl, ◌∙◌, ap, arith, length}
use ryuk_dpq.Base.Int.{pos, ◌+ℤ◌, ◌-ℤ◌}
use ryuk_dpq.Engine.Message.{Message}
use ryuk_dpq.Engine.State.{
  Slot, SlotStats, MsgState, absent, ready, in_flight, delayed, leave, arrive,
}
use ryuk_dpq.Engine.Accounts.{
  IsStable, ready_total, flight_total, delayed_total, held, one, in_bucket, size, IsGauged,
}

-- What a message of weight `n` adds to each sum, by where it is.
abbrev pub in_ready : MsgState → ℕ → ℕ
in_ready ready n = n
in_ready _ n = 0

abbrev pub in_leases : MsgState → ℕ → ℕ
in_leases in_flight n = n
in_leases _ n = 0

abbrev pub in_delay : MsgState → ℕ → ℕ
in_delay delayed n = n
in_delay _ n = 0

abbrev pub in_slot : MsgState → ℕ → ℕ
in_slot absent n = 0
in_slot _ n = n

-- The two places of a transition differ.
abbrev pub Differ : MsgState → MsgState → Type 0
Differ ready ready = ⊥
Differ in_flight in_flight = ⊥
Differ delayed delayed = ⊥
Differ absent absent = ⊥
Differ _ _ = Unit {0}

-- The same gauges; the counters may differ.
pub record SameGauges (t u : SlotStats) : Type 0 where
  pub ready : (b : ℕ) → u.ready b ≡ t.ready b
  pub inflight : u.inflight ≡ t.inflight
  pub delayed : u.delayed ≡ t.delayed
  pub bytes : u.bytes ≡ t.bytes

pub SameGauges-refl : (t : SlotStats) → SameGauges t t
SameGauges-refl t = record { ready = λ b. refl; inflight = refl; delayed = refl; bytes = refl }

pub SameGauges_of_eq : {t u : SlotStats} → u ≡ t → SameGauges t u
SameGauges_of_eq e = record {
  ready = λ b. ap (λ x. x.ready b) e;
  inflight = ap (λ x. x.inflight) e;
  delayed = ap (λ x. x.delayed) e;
  bytes = ap (λ x. x.bytes) e;
}

pub SameGauges-trans : {t u v : SlotStats} → SameGauges t u → SameGauges u v → SameGauges t v
SameGauges-trans p q = record {
  ready = λ b. q.ready b ∙ p.ready b;
  inflight = q.inflight ∙ p.inflight;
  delayed = q.delayed ∙ p.delayed;
  bytes = q.bytes ∙ p.bytes;
}

-- `m` went from place `x` to place `y`, in the sums and in the gauges.
pub record Moved (s t : Slot) (m : Message) (x y : MsgState) : Type 0 where
  pub ready :
      (w : Message → ℕ)
      → IsStable w
      → ready_total w t + in_ready x (w m) ≡ ready_total w s + in_ready y (w m)
  pub leases :
      (w : Message → ℕ)
      → IsStable w
      → flight_total w t + in_leases x (w m) ≡ flight_total w s + in_leases y (w m)
  pub delay :
      (w : Message → ℕ)
      → IsStable w
      → delayed_total w t + in_delay x (w m) ≡ delayed_total w s + in_delay y (w m)
  pub base : SlotStats
  pub before : SameGauges s.st base
  pub gauges : SameGauges (arrive y m (leave x m base)) t.st

module _ (m : Message) (t : SlotStats) where
  ready_moved :
      (x y : MsgState) (b a a' : ℕ)
      → Differ x y
      → t.ready b ≡ pos a
      → a' + in_ready x (in_bucket b m) ≡ a + in_ready y (in_bucket b m)
      → (arrive y m (leave x m t)).ready b ≡ pos a'
  unfolding leave arrive ◌+ℤ◌ ◌-ℤ◌
  ready_moved absent absent b a a' d h e = absurd d
  ready_moved x y b a a' d h e = ground arith

  leases_moved :
      (x y : MsgState) (a a' : ℕ)
      → Differ x y
      → t.inflight ≡ pos a
      → a' + in_leases x 1 ≡ a + in_leases y 1
      → (arrive y m (leave x m t)).inflight ≡ pos a'
  unfolding leave arrive ◌+ℤ◌ ◌-ℤ◌
  leases_moved absent absent a a' d h e = absurd d
  leases_moved x y a a' d h e = ground arith

  delay_moved :
      (x y : MsgState) (a a' : ℕ)
      → Differ x y
      → t.delayed ≡ pos a
      → a' + in_delay x 1 ≡ a + in_delay y 1
      → (arrive y m (leave x m t)).delayed ≡ pos a'
  unfolding leave arrive ◌+ℤ◌ ◌-ℤ◌
  delay_moved absent absent a a' d h e = absurd d
  delay_moved x y a a' d h e = ground arith

  bytes_moved :
      (x y : MsgState) (a a' : ℕ)
      → Differ x y
      → t.bytes ≡ pos a
      → a' + in_slot x (length m.payload) ≡ a + in_slot y (length m.payload)
      → (arrive y m (leave x m t)).bytes ≡ pos a'
  unfolding leave arrive ◌+ℤ◌ ◌-ℤ◌
  bytes_moved absent absent a a' d h e = absurd d
  bytes_moved x y a a' d h e = ground arith

slot_part : (x : MsgState) (n : ℕ) → in_slot x n ≡ in_ready x n + in_leases x n + in_delay x n
slot_part absent n = omega arith
slot_part x n = omega arith

module _ {s t : Slot} {m : Message} {x y : MsgState} (v : Moved s t m x y) where
  pub Moved-held :
      (w : Message → ℕ) → IsStable w → held w t + in_slot x (w m) ≡ held w s + in_slot y (w m)
  Moved-held w e =
      omega (arith, v.ready w e, v.leases w e, v.delay w e, slot_part x (w m), slot_part y (w m))

  pub Moved-IsGauged : Differ x y → IsGauged s → IsGauged t
  Moved-IsGauged d g = record {
    ready = λ b.
        v.gauges.ready b
        ∙ ready_moved m v.base x y b _ _ d (v.before.ready b ∙ g.ready b)
            (v.ready (in_bucket b) (λ k n i. refl));
    inflight =
        v.gauges.inflight
        ∙ leases_moved m v.base x y _ _ d (v.before.inflight ∙ g.inflight)
            (v.leases one (λ k n i. refl));
    delayed =
        v.gauges.delayed
        ∙ delay_moved m v.base x y _ _ d (v.before.delayed ∙ g.delayed)
            (v.delay one (λ k n i. refl));
    bytes =
        v.gauges.bytes
        ∙ bytes_moved m v.base x y _ _ d (v.before.bytes ∙ g.bytes)
            (Moved-held size (λ k n i. refl));
  }
