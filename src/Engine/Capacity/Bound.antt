-- ===== src/Engine/Capacity/Bound.antt =====
-- The cap holds whatever the order of the steps.
use ryuk_dpq.Base.{
  ℕ, ◌+◌, ◌-◌, ◌≤◌, ◌≡◌, refl, ap, List, [], ◌∷◌, arith, length, total, All, total-append, total-le,
}
use ryuk_dpq.Engine.Capacity.{
  claimed, admitted, inserted, landed, Claim, Gate, Step, claim, admit, refuse, fail, insert, land,
  release, leave, subtract, drop, Reach, start, later,
}
use ryuk_dpq.Engine.Capacity.Claims.{owed}
use ryuk_dpq.Engine.Capacity.Room.{Inv, to_count, give_up-Inv, admit-Inv}
use ryuk_dpq.Engine.Capacity.Going.{insert-Inv, land-Inv, claim-Inv, not_due, consume-Inv}

step-Inv : {max : ℕ} {g h : Gate} → Step max g h → Inv max g → Inv max h
step-Inv claim v = claim-Inv v
step-Inv (admit xs c ys at new fits) v = admit-Inv v xs c ys at new fits
step-Inv (refuse xs c ys at new over) v = give_up-Inv v xs c ys at (not_due c claimed new refl)
step-Inv (fail xs c ys at adm) v = give_up-Inv v xs c ys at (not_due c admitted adm refl)
step-Inv (insert xs c ys at new) v = insert-Inv v xs c ys at new
step-Inv (land xs c ys at new) v = land-Inv v xs c ys at new
step-Inv (release xs c ys at done) v = give_up-Inv v xs c ys at (not_due c landed done refl)
step-Inv {max} {g} (leave some_held) v =
    consume-Inv g.removed (g.held - 1) (g.leaving + 1) (omega arith) (omega arith) v
step-Inv {max} {g} (subtract some_leaving) v =
    consume-Inv (g.removed + 1) g.held (g.leaving - 1) (omega arith) (omega arith) v
step-Inv {max} {g} (drop some_held) v =
    consume-Inv g.removed (g.held - 1) g.leaving (omega arith) (omega arith) v

Reach-Inv : {max : ℕ} {g : Gate} → Reach max g → Inv max g
Reach-Inv (start d h fits fewer) = record {
  counted = refl;
  numbered = tt;
  front = [];
  back = [];
  split = refl;
  waiting = tt;
  room = omega arith;
  matched = omega arith;
}
Reach-Inv (later r s) = step-Inv s (Reach-Inv r)

-- A message that is still to be counted: its claim was admitted, and it is not given up or counted yet.
abbrev pub to_land : Claim → ℕ
to_land c = elim c.phase [ admitted ↦ 1 | inserted ↦ 1 | _ ↦ 0 ]

none_to_land : (cs : List Claim) → All (λ c. c.phase ≡ claimed) cs → total to_land cs ≡ 0
none_to_land [] h = refl
none_to_land (c ∷ cs) (e, h) = rw e (omega (arith, none_to_land cs h))

to_land-le-owed : (cs : List Claim) → total to_land cs ≤ total owed cs
to_land-le-owed cs = total-le to_land owed (λ c. ground arith) cs

to_count-le-to_land : (cs : List Claim) → total to_count cs ≤ total to_land cs
to_count-le-to_land cs = total-le to_count to_land (λ c. ground arith) cs

-- With a cap that is set and stays, and no handoff meanwhile: whatever the producers and consumers do
-- in whatever order, also where the depth is below zero in between, the depth and the messages that
-- are admitted and have still to be counted are together within the cap; the slots hold no more
-- messages than the cap; and the claims that the code counts are those in flight.
pub depth_within_cap :
    {max : ℕ} {g : Gate}
    → Reach max g
    → (g.added + total to_land g.claims ≤ max + g.removed)
      × (g.held ≤ max)
      × (g.reserved ≡ length g.claims)
depth_within_cap {max} {g} r =
    let v = Reach-Inv r in
    let fits : g.added + total to_land g.claims ≤ max + g.removed = omega (
      arith,
      v.room,
      ap (total to_land) v.split,
      total-append to_land v.front v.back,
      none_to_land v.back v.waiting,
      to_land-le-owed v.front,
    ) in
    (fits, omega (arith, fits, v.matched, to_count-le-to_land g.claims), v.counted)
