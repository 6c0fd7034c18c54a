-- ===== src/Engine/Migrate/Handover.antt =====
-- The messages of slots that move from one queue to another: frozen and copied here, absorbed there,
-- and dropped here.
use ryuk_dpq.Base.{
  ℕ, ◌+◌, ◌≡◌, refl, sym, ap, ◌∙◌, true, false, List, [], ◌∷◌, arith, inl, inr, if◌then◌else◌,
  if_cases, Bool-cases, total, leb, ◌==◌, length,
}
use ryuk_dpq.Base.Int.{pos, ◌+ℤ◌, ◌-ℤ◌}
use ryuk_dpq.Engine.Message.{Message}
use ryuk_dpq.Engine.Handoff.{copy_all}
use ryuk_dpq.Engine.Accounts.{IsStable, one, one}
use ryuk_dpq.Engine.Accounts.Same.{Same-held, Same-IsWellFormed, Same-IsGauged}
use ryuk_dpq.Engine.Queue.{Queue, slot_count, slot, write_slot}
use ryuk_dpq.Engine.Queue.Holdings.{held_in, slot-Fetched, held_in-written}
use ryuk_dpq.Engine.Queue.Admission.{AreSound, put_slot-AreSound}
use ryuk_dpq.Engine.Migrate.{BySlot, keep_some, freeze_slots, drop_loop, drop_slots, absorb}
use ryuk_dpq.Engine.Migrate.Copying.{total-copy_all}
use ryuk_dpq.Engine.Migrate.Dropping.{
  asked, frozen-Same, hit, IsDistinct, total-asked, given, given_here, length-total,
  drop_loop-Dropped,
}
use ryuk_dpq.Engine.Migrate.Absorbed.{sent_to, list_length, absorb_correct}

sent_to-keep_some :
    (w : Message → ℕ) (i j : ℕ) (ms : List Message) (out : BySlot)
    → total (sent_to w j) (keep_some i ms out)
      ≡ total (sent_to w j) out + (if i == j then total w ms else 0)
unfolding keep_some
sent_to-keep_some w i j [] out = ground arith
sent_to-keep_some w i j (m ∷ ms) out = omega arith

list_length-keep_some :
    (i : ℕ) (ms : List Message) (out : BySlot)
    → total list_length (keep_some i ms out) ≡ total list_length out + length ms
unfolding keep_some
list_length-keep_some i [] out = omega arith
list_length-keep_some i (m ∷ ms) out = omega arith

asked_here :
    (f : ℕ → ℕ) (i j n : ℕ) → leb n i ≡ false → (if i == j then f i else 0) ≡ asked j n (f j) i
asked_here f i j n e =
    if_cases (λ x. x ≡ asked j n (f j) i) (i == j)
      (λ h. let k : i ≡ j = ground (arith, h) in ap f k ∙ ground (arith, e, k))
      (λ h. ground (arith, h))

given_same :
    (n : ℕ) (f g : ℕ → ℕ)
    → ((k : ℕ) → g k ≡ f k)
    → (is : List ℕ) → total (given n g) is ≡ total (given n f) is
given_same n f g e [] = refl
given_same n f g e (k ∷ is) = ground (arith, e k, given_same n f g e is)

-- The slots that are frozen keep all that they hold, and the copies are that.
record Copied {F : Type 0} (q : Queue F) (is : List ℕ) (r : BySlot × Queue F) : Type 0 where
  out :
      (w : Message → ℕ) (j : ℕ)
      → total (sent_to w j) r.0 ≡ total (asked j (slot_count q) (held_in w j q.slots)) is
  sizes : total list_length r.0 ≡ total (given (slot_count q) (λ k. held_in one k q.slots)) is
  rest : (w : Message → ℕ) (j : ℕ) → held_in w j r.1.slots ≡ held_in w j q.slots
  sound : AreSound q.slots → AreSound r.1.slots
  count : slot_count r.1 ≡ slot_count q
  depth : r.1.depth ≡ q.depth

module _ {F : Type 0} where
  freeze_slots-Copied : (is : List ℕ) (q : Queue F) → Copied q is (freeze_slots is q)
  unfolding freeze_slots write_slot slot_count
  freeze_slots-Copied [] q = record {
    out = λ w j. refl;
    sizes = refl;
    rest = λ w j. refl;
    sound = λ v. v;
    count = refl;
    depth = refl;
  }
  freeze_slots-Copied (i ∷ is) q = elim (Bool-cases (leb (slot_count q) i)) [
    | inl e ↦
        let rest = freeze_slots-Copied is q in
        rw (freeze_slots, e)
          record {
            out = λ w j. ground (arith, rest.out w j, e);
            sizes = ground (arith, rest.sizes, e);
            rest = rest.rest;
            sound = rest.sound;
            count = rest.count;
            depth = rest.depth;
          }
    | inr e ↦
        let at = slot-Fetched q i in
        let s = (slot q i).0 in
        let t = record s { frozen = true } in
        let same = frozen-Same s true in
        let q2 = write_slot (slot q i).1 t in
        let rest = freeze_slots-Copied is q2 in
        let count : slot_count q2 ≡ slot_count q = ap slot_count at.frame in
        let kept : (w : Message → ℕ) (j : ℕ) → held_in w j q2.slots ≡ held_in w j q.slots = λ w j.
          ground (
            arith,
            held_in-written q i t w j 0 at.number (omega (arith, Same-held same w, at.here w)),
          ) in
        rw (freeze_slots, e)
          record {
            out = λ w j.
                let again = ap (λ n. total (asked j n (held_in w j q2.slots)) is) count in
                let held_again = ap (λ h. total (asked j (slot_count q) h) is) (kept w j) in
                let all_here = total-copy_all w s ∙ at.here w in
                omega (
                  arith,
                  sent_to-keep_some w i j (copy_all s) (freeze_slots is q2).0,
                  rest.out w j ∙ again ∙ held_again,
                  asked_here (λ k. held_in w k q.slots) i j (slot_count q) e,
                  ap (λ x. if i == j then x else 0) all_here,
                );
            sizes = omega (
              arith,
              list_length-keep_some i (copy_all s) (freeze_slots is q2).0,
              length-total (copy_all s),
              total-copy_all one s,
              at.here one,
              rest.sizes,
              ap (λ n. total (given n (λ k. held_in one k q2.slots)) is) count,
              given_same (slot_count q) (λ k. held_in one k q.slots) (λ k. held_in one k q2.slots)
                  (kept one) is,
              given_here (slot_count q) i (λ k. held_in one k q.slots) e,
            );
            rest = λ w j. rest.rest w j ∙ kept w j;
            sound = λ v. rest.sound (
                put_slot-AreSound (slot q i).1.slots t (at.kept v)
                  (Same-IsWellFormed same (at.sound v).0, Same-IsGauged same (at.sound v).1));
            count = rest.count ∙ count;
            depth = rest.depth ∙ ap (λ (x : Queue F). x.depth) at.frame;
          }
  ]

  -- What a move of slots does, for queues whose slots are sound. The slots that are asked for, each once,
  -- are frozen and copied here, the copies are absorbed by the other queue, and the slots are dropped
  -- here. For each slot, by any measure that does not read attempts or delays: what the two queues hold
  -- together is what they held, and of this queue only the slots that were asked for have changed, to
  -- nothing. Both queues stay sound, and the depth of this one falls by as many messages as that of
  -- the other rises.
  pub handover_conserves :
      (is : List ℕ) (now : ℕ) (q p : Queue F) (w : Message → ℕ) (j : ℕ)
      → IsDistinct is
      → AreSound q.slots
      → AreSound p.slots
      → IsStable w
      → let r = freeze_slots is q in
        let u = absorb r.0 now p in
        let d = drop_slots is r.1 in
        (held_in w j u.slots + held_in w j d.1.slots ≡ held_in w j p.slots + held_in w j q.slots)
        × (held_in w j d.1.slots ≡ (if hit j (slot_count q) is then 0 else held_in w j q.slots))
        × AreSound u.slots
        × AreSound d.1.slots
        × (u.depth ≡ p.depth +ℤ pos d.0)
        × (d.1.depth ≡ q.depth -ℤ pos d.0)
  unfolding drop_slots
  handover_conserves is now q p w j once fine_here fine_there stable =
      let r = freeze_slots is q in
      let copied = freeze_slots-Copied is q in
      let dropped = drop_loop-Dropped is r.1 once (copied.sound fine_here) in
      let (sound, more, depth, reached, seq) = absorb_correct r.0 now p fine_there in
      let left : held_in w j (drop_loop is r.1).1.slots
          ≡ (if hit j (slot_count q) is then 0 else held_in w j q.slots) =
        dropped.left w j
        ∙ ap (λ n. if hit j n is then 0 else held_in w j r.1.slots) copied.count
        ∙ ap (λ n. if hit j (slot_count q) is then 0 else n) (copied.rest w j) in
      let counted : (drop_loop is r.1).0
          ≡ total (given (slot_count q) (λ k. held_in one k q.slots)) is =
        dropped.gone
        ∙ ap (λ n. total (given n (λ k. held_in one k r.1.slots)) is) copied.count
        ∙ given_same (slot_count q) (λ k. held_in one k q.slots) (λ k. held_in one k r.1.slots)
            (copied.rest one) is in
      (
        ground (
          arith,
          more w j stable,
          copied.out w j,
          left,
          total-asked j (slot_count q) (held_in w j q.slots) is once,
        ),
        left,
        sound,
        dropped.sound,
        depth ∙ ap (λ n. p.depth +ℤ pos n) (copied.sizes ∙ sym counted),
        ap (λ x. x -ℤ pos (drop_loop is r.1).0) (dropped.depth ∙ copied.depth),
      )
