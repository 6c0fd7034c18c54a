-- ===== src/Engine/Migrate/Dropping.antt =====
-- The slots that a queue drops after a move hold nothing any more.
use ryuk_dpq.Base.{
  ℕ, ◌≡◌, ◌≢◌, refl, ap, ◌∙◌, Bool, false, ◌&&◌, ◌||◌, All, List, [], ◌∷◌, arith, inl, inr,
  if◌then◌else◌, Bool-cases, total, leb, ltb, ◌==◌, length,
}
use ryuk_dpq.Engine.Message.{Message}
use ryuk_dpq.Engine.State.{Slot}
use ryuk_dpq.Engine.Handoff.{drain}
use ryuk_dpq.Engine.Accounts.{one, one, held, IsWellFormed, IsGauged}
use ryuk_dpq.Engine.Accounts.Same.{Same, Same-held, Same-IsWellFormed, Same-IsGauged}
use ryuk_dpq.Engine.Queue.{Queue, slot_count, slot, write_slot}
use ryuk_dpq.Engine.Queue.Holdings.{held_in, held_in-put_slot, slot-Fetched}
use ryuk_dpq.Engine.Queue.Admission.{AreSound, put_slot-AreSound}
use ryuk_dpq.Engine.Migrate.{drop_loop}
use ryuk_dpq.Engine.Migrate.Draining.{drain-Drains}

-- `h` for each time that slot `j`, one of `n`, is asked for.
abbrev pub asked : ℕ → ℕ → ℕ → ℕ → ℕ
asked j n h i = if (i == j) && ltb i n then h else 0

-- A slot that is frozen or thawed holds the same.
pub frozen-Same : (s : Slot) (b : Bool) → Same s (record s { frozen = b })
frozen-Same s b = record {
  groups = refl;
  fresh = refl;
  inflight = refl;
  delayed = refl;
  timers = refl;
  epoch_seq = refl;
  number = refl;
  st = refl;
  ids = λ a. refl;
  msgs = λ a. refl;
  locked = λ a. refl;
}

-- The slot is one of those that are asked for.
unfoldable pub hit : ℕ → ℕ → List ℕ → Bool
hit j n [] = false
hit j n (i ∷ is) = ((i == j) && ltb i n) || hit j n is

abbrev pub IsDistinct : List ℕ → Type 0
IsDistinct [] = Unit
IsDistinct (i ∷ is) = All (λ k. k ≢ i) is × IsDistinct is

hit_none : (i n : ℕ) (is : List ℕ) → All (λ k. k ≢ i) is → hit i n is ≡ false
unfolding hit
hit_none i n [] d = refl
hit_none i n (k ∷ is) d = ground (arith, d.0, hit_none i n is d.1)

-- Slots that differ are each asked for once.
pub total-asked :
    (j n h : ℕ) (is : List ℕ)
    → IsDistinct is
    → total (asked j n h) is ≡ (if hit j n is then h else 0)
unfolding hit
total-asked j n h [] d = refl
total-asked j n h (i ∷ is) d = ground (arith, total-asked j n h is d.1, hit_none i n is d.0)

-- What a slot of `n` gives.
abbrev pub given : ℕ → (ℕ → ℕ) → ℕ → ℕ
given n f i = if ltb i n then f i else 0

given_apart :
    (n i : ℕ) (f g : ℕ → ℕ) (is : List ℕ)
    → ((k : ℕ) → k ≢ i → g k ≡ f k)
    → All (λ k. k ≢ i) is
    → total (given n g) is ≡ total (given n f) is
given_apart n i f g [] e d = refl
given_apart n i f g (k ∷ is) e d = ground (arith, e k d.0, given_apart n i f g is e d.1)

pub given_here : (n i : ℕ) (f : ℕ → ℕ) → leb n i ≡ false → given n f i ≡ f i
given_here n i f e = ground (arith, e)

other_slot : (i k h : ℕ) → k ≢ i → (if i == k then 0 else h) ≡ h
other_slot i k h ne = ground (arith, ne)

either_hit :
    (i j n : ℕ) (b : Bool) (h : ℕ)
    → leb n i ≡ false
    → (if b then 0 else if i == j then 0 else h) ≡ (if ((i == j) && ltb i n) || b then 0 else h)
either_hit i j n b h e = ground (arith, e)

pub length-total : (ms : List Message) → length ms ≡ total one ms
length-total [] = refl
length-total (m ∷ ms) = omega (arith, length-total ms)

-- The slots that are asked for hold nothing any more, and what they held is counted.
pub record Dropped {F : Type 0} (q : Queue F) (is : List ℕ) (r : ℕ × Queue F) : Type 0 where
  pub left :
      (w : Message → ℕ) (j : ℕ)
      → held_in w j r.1.slots ≡ (if hit j (slot_count q) is then 0 else held_in w j q.slots)
  pub sound : AreSound r.1.slots
  pub gone : r.0 ≡ total (given (slot_count q) (λ k. held_in one k q.slots)) is
  pub depth : r.1.depth ≡ q.depth

module _ {F : Type 0} where
  pub drop_loop-Dropped :
      (is : List ℕ) (q : Queue F) → IsDistinct is → AreSound q.slots → Dropped q is (drop_loop is q)
  unfolding drop_loop write_slot slot_count hit
  drop_loop-Dropped [] q d v = record { left = λ w j. refl; sound = v; gone = refl; depth = refl }
  drop_loop-Dropped (i ∷ is) q d v = elim (Bool-cases (leb (slot_count q) i)) [
    | inl e ↦
        let rest = drop_loop-Dropped is q d.1 v in
        rw (drop_loop, e)
          record {
            left = λ w j. ground (arith, rest.left w j, e);
            sound = rest.sound;
            gone = ground (arith, e, rest.gone);
            depth = rest.depth;
          }
    | inr e ↦
        let at = slot-Fetched q i in
        let s = (slot q i).0 in
        let drained = drain-Drains s (at.sound v).0 in
        let t = record (drain s).1 { frozen = false } in
        let same = frozen-Same (drain s).1 false in
        let q2 = write_slot (slot q i).1 t in
        let well : IsWellFormed t × IsGauged t =
          (Same-IsWellFormed same drained.well, Same-IsGauged same drained.gauged) in
        let rest =
          drop_loop-Dropped is q2 d.1 (put_slot-AreSound (slot q i).1.slots t (at.kept v) well) in
        let count : slot_count q2 ≡ slot_count q = ap slot_count at.frame in
        let written : (w : Message → ℕ) (j : ℕ)
            → held_in w j q2.slots ≡ (if i == j then 0 else held_in w j q.slots) =
          λ w j.
            held_in-put_slot w j t (slot q i).1.slots
            ∙ ap (λ n. if n == j then held w t else held_in w j (slot q i).1.slots)
                (drained.number ∙ at.number)
            ∙ ap (λ n. if i == j then n else held_in w j (slot q i).1.slots)
                (Same-held same w ∙ drained.left w)
            ∙ ap (λ n. if i == j then 0 else n) (at.others w j) in
        rw (drop_loop, e)
          record {
            left = λ w j.
                rest.left w j
                ∙ ap (λ n. if hit j n is then 0 else held_in w j q2.slots) count
                ∙ ap (λ n. if hit j (slot_count q) is then 0 else n) (written w j)
                ∙ either_hit i j (slot_count q) (hit j (slot_count q) is) (held_in w j q.slots) e;
            sound = rest.sound;
            gone = omega (
              arith,
              length-total (drain s).0,
              drained.out one,
              at.here one,
              rest.gone,
              ap (λ n. total (given n (λ k. held_in one k q2.slots)) is) count,
              given_apart (slot_count q) i (λ k. held_in one k q.slots)
                  (λ k. held_in one k q2.slots) is
                  (λ k ne. written one k ∙ other_slot i k (held_in one k q.slots) ne) d.0,
              given_here (slot_count q) i (λ k. held_in one k q.slots) e,
            );
            depth = rest.depth ∙ ap (λ (x : Queue F). x.depth) at.frame;
          }
  ]
