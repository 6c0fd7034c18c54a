-- ===== src/Engine/Migrate/Coming.antt =====
-- The gauges of a slot when messages come in ready.
use ryuk_dpq.Base.{ℕ, ◌+◌, ◌≡◌, refl, ap, ◌∙◌, List, [], ◌∷◌, arith, total}
use ryuk_dpq.Base.Int.{pos, ◌+ℤ◌}
use ryuk_dpq.Engine.Message.{Message}
use ryuk_dpq.Engine.State.{Slot, SlotStats, absent, ready, leave, arrive, move}
use ryuk_dpq.Engine.Accounts.{in_bucket, size}
use ryuk_dpq.Engine.Migrate.{move_all}

-- Numbers that gauges show.
pub record Shows (t : SlotStats) (r : ℕ → ℕ) (i d b : ℕ) : Type 0 where
  pub ready : (k : ℕ) → t.ready k ≡ pos (r k)
  pub inflight : t.inflight ≡ pos i
  pub delayed : t.delayed ≡ pos d
  pub bytes : t.bytes ≡ pos b

abbrev pub come : Message → SlotStats → SlotStats
come m t = arrive ready m (leave absent m t)

come-Shows :
    (m : Message) (t : SlotStats) (r : ℕ → ℕ) (i d b : ℕ)
    → Shows t r i d b
    → Shows (come m t) (λ k. r k + in_bucket k m) i d (b + size m)
unfolding leave arrive ◌+ℤ◌
come-Shows m t r i d b v = record {
  ready = λ k. ground (arith, v.ready k);
  inflight = v.inflight;
  delayed = v.delayed;
  bytes = ground (arith, v.bytes);
}

abbrev pub come_all : SlotStats → List Message → SlotStats
come_all t [] = t
come_all t (m ∷ ms) = come_all (come m t) ms

pub come_all-Shows :
    (ms : List Message) (t : SlotStats) (r q : ℕ → ℕ) (i d b c : ℕ)
    → Shows t r i d b
    → ((k : ℕ) → q k ≡ r k + total (in_bucket k) ms)
    → c ≡ b + total size ms
    → Shows (come_all t ms) q i d c
come_all-Shows [] t r q i d b c v h k = record {
  ready = λ j. v.ready j ∙ ap pos (omega (arith, h j));
  inflight = v.inflight;
  delayed = v.delayed;
  bytes = v.bytes ∙ ap pos (omega arith);
}
come_all-Shows (m ∷ ms) t r q i d b c v h k =
    come_all-Shows ms (come m t) (λ j. r j + in_bucket j m) q i d (b + size m) c
      (come-Shows m t r i d b v) (λ j. omega (arith, h j)) (omega arith)

pub move_all-come_all :
    (ms : List Message) (s : Slot) → move_all s ms ≡ record s { st = come_all s.st ms }
unfolding move_all move
move_all-come_all [] s = refl
move_all-come_all (m ∷ ms) s = move_all-come_all ms (move s m absent ready)
