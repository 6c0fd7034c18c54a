-- ===== src/Gateway/Waiters/Delivery.antt =====
-- A wake goes to a waiter that has none, if there is one.
use ryuk_dpq.Base.{
  map, ℕ, zero, suc, ◌+◌, ◌-◌, ◌%◌, ◌<◌, ◌≡◌, refl, sym, ap, ◌∙◌, String, Bool, true, false, Option,
  none, some, List, [], ◌∷◌, ◌⊎◌, inl, inr, arith, ◌==◌, ltb, if◌then◌else◌, Bool-cases,
  Option-cases, length, get_elem?, set, total, All, str_eq, eq_iff,
}
use native.Mathlib.Nat.{mod-eq_of_lt, mod-lt, add-mod_left}
use ryuk_dpq.Base.Dict.{put, lookup-put}
use ryuk_dpq.Gateway.Waiters.{Waiter, Waiters, waiting, next_of, find_free, hand, deliver, wake}

-- The wakes that are held, and the waiters that hold none.
abbrev pub held_wake : Waiter → ℕ
held_wake c = if c.full then 1 else 0

abbrev pub wakes : List Waiter → ℕ
wakes list = total held_wake list

abbrev pub AreFull : List Waiter → Type 0
AreFull list = All (λ c. c.full ≡ true) list

IsFullAt : List Waiter → ℕ → Type 0
IsFullAt list i = (c : Waiter) → get_elem? list i ≡ some c → c.full ≡ true

AllFullFrom : ℕ → ℕ → List Waiter → Type 0
AllFullFrom n i list = (j : ℕ) → j < n → IsFullAt list ((i + j) % length list)

more_full :
    (n i : ℕ) (list : List Waiter)
    → IsFullAt list (i % length list)
    → AllFullFrom n (i + 1) list
    → AllFullFrom (suc n) i list
unfolding AllFullFrom
more_full n i list h hs zero lt = let e : i + 0 ≡ i = omega arith in rw e h
more_full n i list h hs (suc j) lt =
    let e : i + suc j ≡ i + 1 + j = omega arith in rw e (hs j (omega arith))

-- What a search finds: a waiter with no wake, or that all those that it looked at have one.
abbrev Finds : ℕ → ℕ → List Waiter → Option ℕ → Type 0
Finds n i list r =
    ((r ≡ none) × AllFullFrom n i list)
    ⊎ ((k : ℕ) × (c : Waiter) × (r ≡ some k) × (get_elem? list k ≡ some c) × (c.full ≡ false))

find_free-Finds : (n i : ℕ) (list : List Waiter) → Finds n i list (find_free n i list)
unfolding find_free AllFullFrom IsFullAt
find_free-Finds zero i list = inl (refl, λ j h. absurd (omega arith))
find_free-Finds (suc n) i list = elim (Option-cases (get_elem? list (i % length list))) [
  | inl e ↦
      rw (find_free, e)
        (elim (find_free-Finds n (i + 1) list) [
          | inl (r, a) ↦ inl (r, more_full n i list (λ c p. absurd (none_ne (sym e ∙ p))) a)
          | inr found ↦ inr found
        ])
  | inr (c, e) ↦ elim (Bool-cases c.full) [
    | inr f ↦ rw (find_free, e, f) (inr (i % length list, c, refl, e, f))
    | inl f ↦
        rw (find_free, e, f)
          (elim (find_free-Finds n (i + 1) list) [
            | inl (r, a) ↦ inl (r, more_full n i list (λ d p. full_here c d f (sym e ∙ p)) a)
            | inr found ↦ inr found
          ])
  ]
]
  where
    none_ne : {c : Waiter} → none ≡ some c → ⊥
    none_ne h = cc

    full_here : (c d : Waiter) → c.full ≡ true → some c ≡ some d → d.full ≡ true
    full_here c d f h = cc

-- A round that is as long as the list looks at every place.
round_covers :
    (i : ℕ) (list : List Waiter)
    → i < length list
    → AllFullFrom (length list) i list
    → (k : ℕ) → k < length list
    → IsFullAt list k
unfolding AllFullFrom
round_covers i list h a k lt = elim (Bool-cases (ltb k i)) [
  | inl e ↦
      let n = length list in
      let round : i + (k + n - i) ≡ n + k = omega arith in
      rw (round, add-mod_left n k, mod-eq_of_lt lt) at (a (k + n - i) (ground arith))
  | inr e ↦
      let ahead : i + (k - i) ≡ k = ground arith in
      rw (ahead, mod-eq_of_lt lt) at (a (k - i) (ground arith))
]

all_full : (list : List Waiter) → ((k : ℕ) → k < length list → IsFullAt list k) → AreFull list
unfolding IsFullAt
all_full [] h = tt
all_full (c ∷ cs) h = (h 0 (omega arith) c refl, all_full cs (λ k lt. h (suc k) (omega arith)))

wakes-set :
    (list : List Waiter) (k : ℕ) (c d : Waiter)
    → get_elem? list k ≡ some c
    → wakes (set list k d) + held_wake c ≡ wakes list + held_wake d
wakes-set [] k c d e = cc
wakes-set (x ∷ xs) zero c d e = let same : x ≡ c = cc in rw same (omega arith)
wakes-set (x ∷ xs) (suc k) c d e = omega (arith, wakes-set xs k c d e)

channels-set :
    (list : List Waiter) (k : ℕ) (c : Waiter) (b : Bool)
    → get_elem? list k ≡ some c
    → map (λ x. x.ch) (set list k (record c { full = b })) ≡ map (λ x. x.ch) list
channels-set [] k c b e = refl
channels-set (x ∷ xs) zero c b e =
    let same : x ≡ c = cc in ap (λ y. y.ch ∷ map (λ x. x.ch) xs) (sym same)
channels-set (x ∷ xs) (suc k) c b e = ap (◌∷◌ x.ch) (channels-set xs k c b e)

pub waiting-put :
    (w : Waiters) (k j : String) (list : List Waiter) (next : List (String × ℕ))
    → waiting (record { m = put k list w.m; next = next }) j
      ≡ (if str_eq k j then list else waiting w j)
waiting-put w k j list next = rw (lookup-put k j list w.m, waiting) (ground arith)

-- What a delivery does: nothing, where every waiter of the key holds a wake; otherwise one waiter of
-- the key that held none holds one now, and the waiters of other keys are as they were.
pub data Delivers (w : Waiters) (k : String) (u : Waiters) : Type 0 where
  dropped : AreFull (waiting w k) → u ≡ w → Delivers w k u
  handed :
      wakes (waiting u k) ≡ wakes (waiting w k) + 1
      → map (λ x. x.ch) (waiting u k) ≡ map (λ x. x.ch) (waiting w k)
      → ((j : String) → str_eq k j ≡ false → waiting u j ≡ waiting w j)
      → Delivers w k u

hand_found :
    (list : List Waiter) (i : ℕ) (c : Waiter)
    → get_elem? list i ≡ some c
    → hand list i ≡ set list i (record c { full = true })
unfolding hand
hand_found list i c e = rw (e, hand) refl

handed_one :
    (w : Waiters) (k : String) (i : ℕ) (c : Waiter) (next : List (String × ℕ))
    → get_elem? (waiting w k) i ≡ some c
    → c.full ≡ false
    → Delivers w k (record { m = put k (hand (waiting w k) i) w.m; next = next })
handed_one w k i c next at free =
    let list = waiting w k in
    let h = hand_found list i c at in
    let u : Waiters = record { m = put k (hand list i) w.m; next = next } in
    let here : waiting u k ≡ set list i (record c { full = true }) =
      waiting-put w k k (hand list i) next ∙ ground (arith, eq_iff k k) ∙ h in
    let none_yet : held_wake c ≡ 0 = rw free refl in
    handed (ap wakes here ∙ omega (arith, wakes-set list i c (record c { full = true }) at))
      (ap (map (λ x. x.ch)) here ∙ channels-set list i c true at)
      (λ j other. waiting-put w k j (hand list i) next ∙ ground arith)

-- Where every waiter of the key holds a wake, a wake changes nothing. Otherwise one waiter of the key
-- that held none holds one after it; the waiters stay, and those of other keys are untouched.
pub wake-Delivers : (w : Waiters) (k : String) → Delivers w k (wake w k)
unfolding wake deliver
wake-Delivers w k = elim (Bool-cases (length (waiting w k) == 0)) [
  | inl e ↦ rw (wake, deliver, e) (dropped (no_waiters (waiting w k) e) refl)
  | inr e ↦
      let list = waiting w k in
      let n = length list in
      let start = mod-lt (next_of w k) (some_waiter n e) in
      elim (find_free-Finds n (next_of w k % n) list) [
        | inl (r, a) ↦
            rw (wake, deliver, e, r)
              (dropped (all_full list (round_covers (next_of w k % n) list start a)) refl)
        | inr (i, c, r, at, free) ↦ rw (wake, deliver, e, r) (handed_one w k i c _ at free)
      ]
]
  where
    no_waiters : (list : List Waiter) → (length list == 0) ≡ true → AreFull list
    no_waiters [] e = tt
    no_waiters (c ∷ cs) e = absurd (ground arith)

    some_waiter : (n : ℕ) → (n == 0) ≡ false → 0 < n
    some_waiter n e = ground arith
