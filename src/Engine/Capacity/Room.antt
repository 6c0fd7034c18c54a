-- ===== src/Engine/Capacity/Room.antt =====
-- What the order of the claims gives: those that were admitted fit under the cap. Claims are given up and
-- admitted.
use ryuk_dpq.Base.{
  ℕ, ◌+◌, ◌<◌, ◌≤◌, ◌≡◌, refl, sym, ap, ◌∙◌, List, [], ◌∷◌, ◌++◌, inl, inr, arith, length, total,
  All, length-append, total-append, All-append, All-parts,
}
use mathlib.Core.List.{append_assoc}
use ryuk_dpq.Engine.Capacity.{Phase, claimed, admitted, inserted, Claim, Gate, with_phase, give_up}
use ryuk_dpq.Engine.Capacity.Claims.{
  owed, AreNumbered, AreNumbered-lower, AreNumbered-append, AreNumbered-parts, stands, total-middle,
  owed-le,
}

-- A message that its slot has, and the depth has not yet.
abbrev pub to_count : Claim → ℕ
to_count c = elim c.phase [ inserted ↦ 1 | _ ↦ 0 ]

-- Some first claims fit with the depth under the cap, and after them nobody is admitted.
pub record Inv (max : ℕ) (g : Gate) : Type 0 where
  pub counted : g.reserved ≡ length g.claims
  pub numbered : AreNumbered 0 g.claims
  pub front : List Claim
  pub back : List Claim
  pub split : g.claims ≡ front ++ back
  pub waiting : All (λ c. c.phase ≡ claimed) back
  pub room : g.added + total owed front ≤ max + g.removed
  pub matched : g.held + g.leaving + g.removed ≤ g.added + total to_count g.claims

module _ {max : ℕ} {g : Gate} (v : Inv max g) (xs : List Claim) (c : Claim) (ys : List Claim)
    (at : g.claims ≡ xs ++ c ∷ ys) where
  here : AreNumbered 0 (xs ++ c ∷ ys)
  here = rw (← at) v.numbered

  pending_after : length xs < c.pending
  pending_after = let (a, b) = AreNumbered-parts 0 xs (c ∷ ys) here in omega (arith, b.0)

  pub kept_numbers : (p : Phase) → AreNumbered 0 (xs ++ with_phase c p ∷ ys)
  kept_numbers p =
      let (a, b) = AreNumbered-parts 0 xs (c ∷ ys) here in
      AreNumbered-append 0 xs (with_phase c p ∷ ys) a b

  fewer_numbers : AreNumbered 0 (xs ++ ys)
  fewer_numbers =
      let (a, b) = AreNumbered-parts 0 xs (c ∷ ys) here in
      AreNumbered-append 0 xs ys a (AreNumbered-lower _ _ ys (omega arith) b.1)

  pub kept_length : (p : Phase) → g.reserved ≡ length (xs ++ with_phase c p ∷ ys)
  kept_length p = omega (
    arith,
    v.counted,
    ap length at,
    length-append xs (c ∷ ys),
    length-append xs (with_phase c p ∷ ys),
  )

  -- The claims with this one in another phase, or without it.
  pub counted_with :
      (p : Phase)
      → total to_count (xs ++ with_phase c p ∷ ys) + to_count c
        ≡ total to_count g.claims + to_count (with_phase c p)
  counted_with p = omega (
    arith,
    ap (total to_count) at,
    total-append to_count xs (c ∷ ys),
    total-append to_count xs (with_phase c p ∷ ys),
  )

  counted_without : total to_count (xs ++ ys) + to_count c ≡ total to_count g.claims
  counted_without = omega (
    arith,
    ap (total to_count) at,
    total-append to_count xs (c ∷ ys),
    total-append to_count xs ys,
  )

  -- A claim that is given up, with no message that has still to be counted.
  pub give_up-Inv : to_count c ≡ 0 → Inv max (give_up g (xs ++ ys))
  give_up-Inv none_due = elim (stands xs c ys v.front v.back (sym at ∙ v.split)) [
    | inl (zs, f, b) ↦ record {
      counted =
          omega (arith, v.counted, ap length at, length-append xs (c ∷ ys), length-append xs ys);
      numbered = fewer_numbers;
      front = xs ++ zs;
      back = v.back;
      split = ap (◌++◌ xs) b ∙ sym (append_assoc xs zs v.back);
      waiting = v.waiting;
      room =
          omega (arith, v.room, ap (total owed) f, total-middle xs zs c, total-append owed xs zs);
      matched = omega (arith, v.matched, counted_without, none_due);
    }
    | inr (zs, f, b) ↦ record {
      counted =
          omega (arith, v.counted, ap length at, length-append xs (c ∷ ys), length-append xs ys);
      numbered = fewer_numbers;
      front = v.front;
      back = zs ++ ys;
      split = ap (λ x. x ++ ys) f ∙ append_assoc v.front zs ys;
      waiting =
          let w : All (λ x. x.phase ≡ claimed) (zs ++ c ∷ ys) = rw (← b) v.waiting in
          let (p, q) = All-parts _ zs (c ∷ ys) w in All-append _ zs ys p q.1;
      room = v.room;
      matched = omega (arith, v.matched, counted_without, none_due);
    }
  ]

  -- A claim that fits is admitted: with those before it, it is within the room.
  pub admit-Inv :
      c.phase ≡ claimed
      → g.added + c.pending ≤ max + g.removed
      → Inv max (record g { claims = xs ++ with_phase c admitted ∷ ys })
  admit-Inv new fits = elim (stands xs c ys v.front v.back (sym at ∙ v.split)) [
    | inl (zs, f, b) ↦ record {
      counted = kept_length admitted;
      numbered = kept_numbers admitted;
      front = xs ++ with_phase c admitted ∷ zs;
      back = v.back;
      split =
          ap (λ x. xs ++ with_phase c admitted ∷ x) b
          ∙ sym (append_assoc xs (with_phase c admitted ∷ zs) v.back);
      waiting = v.waiting;
      room =
          let one : owed c ≡ 1 = rw new refl in
          omega (
            arith,
            v.room,
            ap (total owed) f,
            total-middle xs zs c,
            total-middle xs zs (with_phase c admitted),
          );
      matched = still;
    }
    | inr (zs, f, b) ↦ record {
      counted = kept_length admitted;
      numbered = kept_numbers admitted;
      front = xs ++ with_phase c admitted ∷ [];
      back = ys;
      split = sym (append_assoc xs (with_phase c admitted ∷ []) ys);
      waiting =
          let w : All (λ x. x.phase ≡ claimed) (zs ++ c ∷ ys) = rw (← b) v.waiting in
          (All-parts _ zs (c ∷ ys) w).1.1;
      room =
          omega
            (arith, fits, pending_after, owed-le xs, total-middle xs [] (with_phase c admitted));
      matched = still;
    }
  ]
    where
      still :
          g.held + g.leaving + g.removed
          ≤ g.added + total to_count (xs ++ with_phase c admitted ∷ ys)
      still =
          let none_due : to_count c ≡ 0 = rw new refl in
          omega (arith, v.matched, counted_with admitted, none_due)
