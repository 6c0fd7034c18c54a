-- ===== src/Engine/Tests/Caps.antt =====
-- A queue with a cap of two, of which one place is taken.
use ryuk_dpq.Base.{◌≤◌, ◌+◌, ◌≡◌, refl, [], ◌∷◌, arith, length, total}
use ryuk_dpq.Engine.Capacity.{
  Gate, Claim, with_phase, Reach, start, later, claim, admit, insert, leave, subtract, admitted,
  inserted, claimed,
}
use ryuk_dpq.Engine.Capacity.Bound.{to_land, depth_within_cap}

-- One message was acknowledged before its producer has counted it, and another producer is between its
-- claim and the test.
abbrev gate : Gate
gate = record {
  added = 0;
  removed = 1;
  reserved = 2;
  held = 0;
  leaving = 0;
  claims = record { pending = 1; phase = inserted } ∷ record { pending = 2; phase = claimed } ∷ [];
}

gate-Reach : Reach 2 gate
gate-Reach =
    let c : Claim = record { pending = 1; phase = claimed } in
    let r0 =
      later (later (start 0 0 (omega arith) (omega arith)) claim)
        (admit [] c [] refl refl (omega arith)) in
    let r1 = later r0 (insert [] (with_phase c admitted) [] refl refl) in
    later (later (later r1 (leave (omega arith))) (subtract (omega arith))) claim

depth_within_cap_example :
    (0 + total to_land gate.claims ≤ 2 + 1) × (0 ≤ 2) × (2 ≡ length gate.claims)
depth_within_cap_example = depth_within_cap gate-Reach
