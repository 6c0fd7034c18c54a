-- ===== src/Placement/Ranking.antt =====
-- OwnerFor: who wins, and what another member changes.
use ryuk_dpq.Base.{
  ℕ, ◌<◌, ◌≤◌, ◌≡◌, refl, ap, String, true, Option, none, some, List, [], ◌∷◌, ◌++◌, ◌⊎◌, inl, inr,
  arith, ltb, Bool-cases, All,
}
use ryuk_dpq.Placement.{Member, hash64, score, challenge, best_of, winner, owner_for}

-- `b` stands in the list; every member before it scores less, and none after it scores more.
pub record IsWinner (kh : ℕ) (b : Member) (ms : List Member) : Type 0 where
  pub ahead : List Member
  pub behind : List Member
  pub split : ms ≡ ahead ++ b ∷ behind
  pub less : All (λ m. score kh m < score kh b) ahead
  pub at_most : All (λ m. score kh m ≤ score kh b) behind

-- Against a best `b`, either no member scores more, or the first of the highest scores wins.
Contest : ℕ → Member → List Member → Option (Member × ℕ) → Type 0
Contest kh b ms r =
    ((r ≡ some (b, score kh b)) × All (λ m. score kh m ≤ score kh b) ms)
    ⊎ ((c : Member) × (r ≡ some (c, score kh c)) × (score kh b < score kh c) × IsWinner kh c ms)

best_of-Contest :
    (kh : ℕ) (b : Member) (ms : List Member)
    → Contest kh b ms (best_of kh (some (b, score kh b)) ms)
unfolding Contest best_of challenge
best_of-Contest kh b [] = inl (refl, tt)
best_of-Contest kh b (m ∷ ms) = elim (Bool-cases (ltb (score kh b) (score kh m))) [
  | inl e ↦ elim (best_of-Contest kh m ms) [
    | inl (r, a) ↦
        rw (best_of, challenge, e)
          (inr (
            m,
            r,
            ground arith,
            record { ahead = []; behind = ms; split = refl; less = tt; at_most = a },
          ))
    | inr (c, r, h, w) ↦
        rw (best_of, challenge, e)
          (inr (
            c,
            r,
            ground arith,
            record {
              ahead = m ∷ w.ahead;
              behind = w.behind;
              split = ap (◌∷◌ m) w.split;
              less = (h, w.less);
              at_most = w.at_most;
            },
          ))
  ]
  | inr e ↦ elim (best_of-Contest kh b ms) [
    | inl (r, a) ↦ rw (best_of, challenge, e) (inl (r, (ground arith, a)))
    | inr (c, r, h, w) ↦
        rw (best_of, challenge, e)
          (inr (
            c,
            r,
            h,
            record {
              ahead = m ∷ w.ahead;
              behind = w.behind;
              split = ap (◌∷◌ m) w.split;
              less = (ground arith, w.less);
              at_most = w.at_most;
            },
          ))
  ]
]

-- Nobody owns a key exactly where there is no member; otherwise the owner is the first of the members
-- with the highest score.
pub owner_for_wins :
    (key : String) (ms : List Member)
    → ((ms ≡ []) × (owner_for key ms ≡ none))
      ⊎ ((b : Member) × (owner_for key ms ≡ some b) × IsWinner (hash64 key) b ms)
unfolding owner_for best_of challenge winner Contest
owner_for_wins key [] = inl (refl, refl)
owner_for_wins key (m ∷ ms) = elim (best_of-Contest (hash64 key) m ms) [
  | inl (r, a) ↦
      inr (m, ap winner r, record { ahead = []; behind = ms; split = refl; less = tt; at_most = a })
  | inr (c, r, h, w) ↦ inr (
    c,
    ap winner r,
    record {
      ahead = m ∷ w.ahead;
      behind = w.behind;
      split = ap (◌∷◌ m) w.split;
      less = (h, w.less);
      at_most = w.at_most;
    },
  )
]

-- A better starting point stays the best, or makes no difference.
best_of_start :
    (kh : ℕ) (b x : Member) (ms : List Member)
    → score kh b ≤ score kh x
    → (best_of kh (some (x, score kh x)) ms ≡ some (x, score kh x))
      ⊎ (best_of kh (some (x, score kh x)) ms ≡ best_of kh (some (b, score kh b)) ms)
unfolding best_of challenge
best_of_start kh b x [] h = inl refl
best_of_start kh b x (m ∷ ms) h = elim (Bool-cases (ltb (score kh x) (score kh m))) [
  | inl e ↦
      let f : ltb (score kh b) (score kh m) ≡ true = ground arith in
      inr (rw (best_of, challenge, e, f) refl)
  | inr e ↦ elim (Bool-cases (ltb (score kh b) (score kh m))) [
    | inl f ↦ rw (best_of, challenge, e, f) (best_of_start kh m x ms (ground arith))
    | inr f ↦ rw (best_of, challenge, e, f) (best_of_start kh b x ms h)
  ]
]

-- Another member wins, or the result is what it was.
Joins : ℕ → Member → Option (Member × ℕ) → Option (Member × ℕ) → Type 0
Joins kh x r old = (r ≡ some (x, score kh x)) ⊎ (r ≡ old)

member-Joins_after :
    (kh : ℕ) (b x : Member) (xs ys : List Member)
    → Joins kh x
        (best_of kh (some (b, score kh b)) (xs ++ x ∷ ys))
        (best_of kh (some (b, score kh b)) (xs ++ ys))
unfolding Joins best_of challenge
member-Joins_after kh b x [] ys = elim (Bool-cases (ltb (score kh b) (score kh x))) [
  | inl e ↦ rw (best_of, challenge, e) (best_of_start kh b x ys (ground arith))
  | inr e ↦ rw (best_of, challenge, e) (inr refl)
]
member-Joins_after kh b x (m ∷ xs) ys = elim (Bool-cases (ltb (score kh b) (score kh m))) [
  | inl e ↦ rw (best_of, challenge, e) (member-Joins_after kh m x xs ys)
  | inr e ↦ rw (best_of, challenge, e) (member-Joins_after kh b x xs ys)
]

member-Joins :
    (kh : ℕ) (x : Member) (xs ys : List Member)
    → Joins kh x (best_of kh none (xs ++ x ∷ ys)) (best_of kh none (xs ++ ys))
unfolding Joins best_of challenge
member-Joins kh x [] [] = inl refl
member-Joins kh x [] (y ∷ ys) = elim (Bool-cases (ltb (score kh x) (score kh y))) [
  | inl e ↦ rw (best_of, challenge, e) (inr refl)
  | inr e ↦ rw (best_of, challenge, e) (best_of_start kh y x ys (ground arith))
]
member-Joins kh x (m ∷ xs) ys = member-Joins_after kh m x xs ys

-- A member that member-Joins, wherever it stands in the list, takes a key for itself or leaves its owner
-- alone. Read the other way, a member that leaves moves no key but its own.
pub owner_for_joins :
    (key : String) (x : Member) (xs ys : List Member)
    → (owner_for key (xs ++ x ∷ ys) ≡ some x)
      ⊎ (owner_for key (xs ++ x ∷ ys) ≡ owner_for key (xs ++ ys))
unfolding owner_for winner Joins
owner_for_joins key x xs ys = elim (member-Joins (hash64 key) x xs ys) [
  | inl e ↦ inl (ap winner e)
  | inr e ↦ inr (ap winner e)
]
