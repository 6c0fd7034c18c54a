-- ===== src/Engine/Capacity/Going.antt =====
-- What a claim that is past its test, a new claim and a consumer do to the room under the cap.
use ryuk_dpq.Base.{
  ◌≢◌, ℕ, ◌+◌, ◌≤◌, ◌≡◌, refl, sym, ap, ◌∙◌, List, [], ◌∷◌, ◌++◌, inl, inr, arith, total, All,
  length-append, total-append, All-append, All-parts,
}
use mathlib.Core.List.{append_assoc}
use ryuk_dpq.Engine.Capacity.{Phase, claimed, admitted, inserted, landed, Claim, Gate, with_phase}
use ryuk_dpq.Engine.Capacity.Claims.{owed, AreNumbered-append, stands, total-middle}
use ryuk_dpq.Engine.Capacity.Room.{Inv, to_count, kept_numbers, kept_length, counted_with}

module _ {max : ℕ} {g : Gate} (v : Inv max g) (xs : List Claim) (c : Claim) (ys : List Claim)
    (at : g.claims ≡ xs ++ c ∷ ys) where
  -- A claim that is past its test goes on: what it is owed and what is added stay together in the room.
  move-Inv :
      (p : Phase) (added held : ℕ)
      → (c.phase ≢ claimed)
      → added + owed (with_phase c p) ≡ g.added + owed c
      → held + g.leaving + g.removed ≤ added + total to_count (xs ++ with_phase c p ∷ ys)
      → Inv max (record g { added = added; held = held; claims = xs ++ with_phase c p ∷ ys })
  move-Inv p added held past owes counts = elim (stands xs c ys v.front v.back (sym at ∙ v.split)) [
    | inl (zs, f, b) ↦ record {
      counted = kept_length v xs c ys at p;
      numbered = kept_numbers v xs c ys at p;
      front = xs ++ with_phase c p ∷ zs;
      back = v.back;
      split =
          ap (λ x. xs ++ with_phase c p ∷ x) b ∙ sym (append_assoc xs (with_phase c p ∷ zs) v.back);
      waiting = v.waiting;
      room = omega (
        arith,
        v.room,
        owes,
        ap (total owed) f,
        total-middle xs zs c,
        total-middle xs zs (with_phase c p),
      );
      matched = counts;
    }
    | inr (zs, f, b) ↦
        let w : All (λ x. x.phase ≡ claimed) (zs ++ c ∷ ys) = rw (← b) v.waiting in
        let (before, q) = All-parts _ zs (c ∷ ys) w in absurd (past q.0)
  ]

  -- The slot takes the message of an admitted claim, which is owed as before.
  pub insert-Inv :
      c.phase ≡ admitted
      → Inv max (record g { held = g.held + 1; claims = xs ++ with_phase c inserted ∷ ys })
  insert-Inv new =
      let one : owed c ≡ 1 = rw new refl in
      let none_due : to_count c ≡ 0 = rw new refl in
      move-Inv inserted g.added (g.held + 1) (λ e. two_phases (sym e ∙ new)) (omega (arith, one))
        (omega (arith, v.matched, counted_with v xs c ys at inserted, none_due))
    where
      two_phases : claimed ≡ admitted → ⊥
      two_phases h = cc

  -- A claim whose message the slot has lands: what it was owed is in the depth now.
  pub land-Inv :
      c.phase ≡ inserted
      → Inv max (record g { added = g.added + 1; claims = xs ++ with_phase c landed ∷ ys })
  land-Inv new =
      let one : owed c ≡ 1 = rw new refl in
      let due : to_count c ≡ 1 = rw new refl in
      move-Inv landed (g.added + 1) g.held (λ e. two_phases (sym e ∙ new)) (omega (arith, one))
        (omega (arith, v.matched, counted_with v xs c ys at landed, due))
    where
      two_phases : claimed ≡ inserted → ⊥
      two_phases h = cc

pub claim-Inv :
    {max : ℕ} {g : Gate}
    → Inv max g
    → Inv max (record g {
      reserved = g.reserved + 1;
      claims = g.claims ++ record { pending = g.reserved + 1; phase = claimed } ∷ [];
    })
claim-Inv {max} {g} v =
    let c : Claim = record { pending = g.reserved + 1; phase = claimed } in
    record {
      counted = omega (arith, v.counted, length-append g.claims (c ∷ []));
      numbered = AreNumbered-append 0 g.claims (c ∷ []) v.numbered (omega (arith, v.counted), tt);
      front = v.front;
      back = v.back ++ c ∷ [];
      split = ap (λ x. x ++ c ∷ []) v.split ∙ append_assoc v.front v.back (c ∷ []);
      waiting = All-append _ v.back (c ∷ []) v.waiting (refl, tt);
      room = v.room;
      matched = omega (arith, v.matched, total-append to_count g.claims (c ∷ []));
    }

-- A claim in a phase without a message in its slot.
pub not_due :
    (c : Claim) (p : Phase)
    → c.phase ≡ p
    → elim p as (λ _. ℕ) [ inserted ↦ 1 | _ ↦ 0 ] ≡ 0
    → to_count c ≡ 0
not_due c p e h = rw e h

-- What consumers do: no claim changes, and the depth is not raised.
pub consume-Inv :
    {max : ℕ} {g : Gate} (removed held leaving : ℕ)
    → g.removed ≤ removed
    → held + leaving + removed ≤ g.held + g.leaving + g.removed
    → Inv max g
    → Inv max (record g { removed = removed; held = held; leaving = leaving })
consume-Inv removed held leaving more less v = record {
  counted = v.counted;
  numbered = v.numbered;
  front = v.front;
  back = v.back;
  split = v.split;
  waiting = v.waiting;
  room = omega (arith, v.room);
  matched = omega (arith, v.matched);
}
