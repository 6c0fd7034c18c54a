-- ===== src/Engine/Migrate/Absorbed.antt =====
-- What a queue holds after Absorb.
use ryuk_dpq.Base.{
  ℕ, ◌+◌, ◌≤◌, ◌≡◌, refl, ap, ◌∙◌, List, [], ◌∷◌, arith, inl, inr, if◌then◌else◌, Bool-cases, total,
  leb, ltb, ◌==◌, length, All,
}
use ryuk_dpq.Base.Int.{pos, ◌+ℤ◌}
use ryuk_dpq.Engine.Message.{Message}
use ryuk_dpq.Engine.Accounts.{IsStable}
use ryuk_dpq.Engine.Queue.{Queue, slot, write_slot, adopt_seq}
use ryuk_dpq.Engine.Queue.Holdings.{held_in, slot-Fetched, held_in-written}
use ryuk_dpq.Engine.Queue.Admission.{AreSound, put_slot-AreSound}
use ryuk_dpq.Engine.Migrate.{BySlot, absorb_slot, absorb_loop, absorb}
use ryuk_dpq.Engine.Migrate.Absorbing.{absorb_slot-Adds}
use ryuk_dpq.Engine.Migrate.Sorting.{IsBelow, IsBelow-le, last_seq-sort_by_seq-IsBelow}

-- The messages that are for one slot.
abbrev pub sent_to : (Message → ℕ) → ℕ → ℕ × List Message → ℕ
sent_to w i (j, ms) = if j == i then total w ms else 0

abbrev pub list_length : ℕ × List Message → ℕ
list_length (j, ms) = length ms

-- The numbers of a move are no greater than this one.
abbrev pub IsReached : ℕ → BySlot → Type 0
IsReached n by_slot = All (λ (e : ℕ × List Message). IsBelow n e.1) by_slot

IsReached-le : (n k : ℕ) (b : BySlot) → n ≤ k → IsReached n b → IsReached k b
IsReached-le n k [] h r = tt
IsReached-le n k ((i, ms) ∷ b) h r = (IsBelow-le n k ms h r.0, IsReached-le n k b h r.1)

greater : ℕ → ℕ → ℕ
greater a b = if ltb a b then b else a

greater_left : (a b : ℕ) → a ≤ greater a b
unfolding greater
greater_left a b = ground arith

greater_right : (a b : ℕ) → b ≤ greater a b
unfolding greater
greater_right a b = ground arith

-- A queue that has taken the messages of a move into its slots: `n` of them, numbered up to `top`.
pub record Takes {F : Type 0} (q : Queue F) (by_slot : BySlot) (r : ℕ × ℕ × Queue F) : Type 0 where
  pub sound : AreSound r.2.slots
  pub more :
      (w : Message → ℕ) (i : ℕ)
      → IsStable w
      → held_in w i r.2.slots ≡ held_in w i q.slots + total (sent_to w i) by_slot
  pub count : r.0 ≡ total list_length by_slot
  pub top : IsReached r.1 by_slot
  pub frame : r.2 ≡ record q { slots = r.2.slots }

module _ {F : Type 0} where
  absorb_loop-Takes :
      (b : BySlot) (now : ℕ) (q : Queue F) → AreSound q.slots → Takes q b (absorb_loop b now q)
  unfolding absorb_loop write_slot greater
  absorb_loop-Takes [] now q v = record {
    sound = v;
    more = λ w i s. omega arith;
    count = refl;
    top = tt;
    frame = refl;
  }
  absorb_loop-Takes ((i, []) ∷ b) now q v =
      let rest = absorb_loop-Takes b now q v in
      record {
        sound = rest.sound;
        more = λ w j s. ground (arith, rest.more w j s);
        count = omega (arith, rest.count);
        top = (tt, rest.top);
        frame = rest.frame;
      }
  absorb_loop-Takes ((i, m ∷ ms) ∷ b) now q v =
      let at = slot-Fetched q i in
      let fine = at.sound v in
      let more = absorb_slot-Adds (slot q i).0 (m ∷ ms) now fine.0 fine.1 in
      let t = absorb_slot (slot q i).0 (m ∷ ms) now in
      let q2 = write_slot (slot q i).1 t in
      let rest =
        absorb_loop-Takes b now q2
          (put_slot-AreSound (slot q i).1.slots t (at.kept v) (more.well, more.gauged)) in
      record {
        sound = rest.sound;
        more = λ w j s. omega (
          arith,
          rest.more w j s,
          held_in-written q i t w j (total w (m ∷ ms)) (more.number ∙ at.number)
              (omega (arith, more.more w s, at.here w)),
        );
        count = omega (arith, rest.count);
        top = (
          IsBelow-le _ _ (m ∷ ms) (greater_right _ _) (last_seq-sort_by_seq-IsBelow (m ∷ ms)),
          IsReached-le _ _ b (greater_left _ _) rest.top,
        );
        frame =
            rest.frame
            ∙ ap (λ (x : Queue F). record x { slots = (absorb_loop b now q2).2.slots }) at.frame;
      }

  -- What Absorb does: the slots are sound and hold what was sent to them, the depth counts the messages,
  -- and no number that the queue gives from here on is one of theirs.
  pub absorb_correct :
      (b : BySlot) (now : ℕ) (q : Queue F)
      → AreSound q.slots
      → let u = absorb b now q in
        AreSound u.slots
        × ((w : Message → ℕ) (i : ℕ)
            → IsStable w
            → held_in w i u.slots ≡ held_in w i q.slots + total (sent_to w i) b)
        × (u.depth ≡ q.depth +ℤ pos (total list_length b))
        × IsReached u.seq b
        × (q.seq ≤ u.seq)
  unfolding absorb adopt_seq
  absorb_correct b now q v =
      let r = absorb_loop b now q in
      let t = absorb_loop-Takes b now q v in
      let seq : r.2.seq ≡ q.seq = ap (λ (x : Queue F). x.seq) t.frame in
      let depth : r.2.depth +ℤ pos r.0 ≡ q.depth +ℤ pos (total list_length b) =
        ap (λ (x : Queue F). x.depth +ℤ pos r.0) t.frame ∙ ap (λ n. q.depth +ℤ pos n) t.count in
      elim (Bool-cases (leb r.1 r.2.seq)) [
        | inl e ↦
            let under : r.1 ≤ r.2.seq = ground (arith, e) in
            rw e (t.sound, t.more, depth, IsReached-le _ _ b under t.top, omega (arith, seq))
        | inr e ↦
            let over : r.2.seq ≤ r.1 = ground (arith, e) in
            rw e (t.sound, t.more, depth, t.top, omega (arith, seq, over))
      ]
