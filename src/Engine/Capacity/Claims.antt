-- ===== src/Engine/Capacity/Claims.antt =====
-- Lists of claims: their places, a claim among them, and what they are owed.
use ryuk_dpq.Base.{
  ℕ, ◌+◌, ◌<◌, ◌≤◌, ◌≡◌, refl, sym, List, [], ◌∷◌, ◌++◌, ◌⊎◌, inl, inr, arith, length, total,
  total-append,
}
use ryuk_dpq.Engine.Capacity.{Phase, landed, Claim}

-- A claim in flight is still to be counted in the depth, unless it has landed.
abbrev pub owed : Claim → ℕ
owed c = elim c.phase [ landed ↦ 0 | _ ↦ 1 ]

-- The number that a claim returned is at least its place among the claims in flight.
abbrev pub AreNumbered : ℕ → List Claim → Type 0
AreNumbered n [] = Unit
AreNumbered n (c ∷ cs) = (n < c.pending) × AreNumbered (n + 1) cs

pub AreNumbered-lower : (m n : ℕ) (cs : List Claim) → m ≤ n → AreNumbered n cs → AreNumbered m cs
AreNumbered-lower m n [] h a = tt
AreNumbered-lower m n (c ∷ cs) h (p, a) =
    (omega arith, AreNumbered-lower (m + 1) (n + 1) cs (omega arith) a)

pub AreNumbered-append :
    (n : ℕ) (xs ys : List Claim)
    → AreNumbered n xs
    → AreNumbered (n + length xs) ys
    → AreNumbered n (xs ++ ys)
AreNumbered-append n [] ys a b = AreNumbered-lower n (n + 0) ys (omega arith) b
AreNumbered-append n (x ∷ xs) ys (p, a) b =
    (p, AreNumbered-append (n + 1) xs ys a (AreNumbered-lower _ _ ys (omega arith) b))

pub AreNumbered-parts :
    (n : ℕ) (xs ys : List Claim)
    → AreNumbered n (xs ++ ys)
    → AreNumbered n xs × AreNumbered (n + length xs) ys
AreNumbered-parts n [] ys a = (tt, AreNumbered-lower _ n ys (omega arith) a)
AreNumbered-parts n (x ∷ xs) ys (p, a) =
    let (b, c) = AreNumbered-parts (n + 1) xs ys a in
    ((p, b), AreNumbered-lower _ _ ys (omega arith) c)

-- Where one claim stands, against the front and the back.
abbrev pub Stands : List Claim → Claim → List Claim → List Claim → List Claim → Type 0
Stands xs c ys front back =
    ((zs : List Claim) × (front ≡ xs ++ c ∷ zs) × (ys ≡ zs ++ back))
    ⊎ ((zs : List Claim) × (xs ≡ front ++ zs) × (back ≡ zs ++ c ∷ ys))

pub stands :
    (xs : List Claim) (c : Claim) (ys front back : List Claim)
    → xs ++ c ∷ ys ≡ front ++ back
    → Stands xs c ys front back
stands xs c ys [] back e = inr (xs, refl, sym e)
stands [] c ys (f ∷ front) back e = inl (front, (cc), (cc))
stands (x ∷ xs) c ys (f ∷ front) back e = elim (stands xs c ys front back (cc)) [
  | inl (zs, p, q) ↦ inl (zs, (cc), q)
  | inr (zs, p, q) ↦ inr (zs, (cc), q)
]

pub total-middle :
    (xs ys : List Claim) (c : Claim)
    → total owed (xs ++ c ∷ ys) ≡ total owed xs + owed c + total owed ys
total-middle xs ys c = omega (arith, total-append owed xs (c ∷ ys))

pub owed-le : (cs : List Claim) → total owed cs ≤ length cs
owed-le [] = omega arith
owed-le (c ∷ cs) = omega (arith, owed-le cs, at_most_one c.phase)
  where
    at_most_one : (p : Phase) → elim p as (λ _. ℕ) [ landed ↦ 0 | _ ↦ 1 ] ≤ 1
    at_most_one p = ground arith
