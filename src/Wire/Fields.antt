-- ===== src/Wire/Fields.antt =====
-- What backend/queue/entity/receipt.go uses of strings and strconv, as their definitions, on bytes:
-- Split and SplitN at a byte, ParseUint in base 10 and Atoi. An error is `none`.
use ryuk_dpq.Base.{
  ℕ, zero, suc, ◌+◌, ◌-◌, ◌*◌, ◌/◌, ◌%◌, ◌^◌, ◌<◌, ◌≡◌, refl, ap, ◌∙◌, Bool, true, false, ◌&&◌,
  Option, none, some, List, [], ◌∷◌, ◌++◌, ◌==◌, ltb, leb, if◌then◌else◌, Bool-cases, inl, inr,
  arith, All, All-append,
}
use ryuk_dpq.Base.Int.{ℤ, pos, negsuc}
use ryuk_dpq.Placement.Keys.{digits, pow10}

-- A byte in front of the first field.
abbrev pub grow : ℕ → List (List ℕ) → List (List ℕ)
grow x [] = (x ∷ []) ∷ []
grow x (p ∷ ps) = (x ∷ p) ∷ ps

unfoldable pub split : ℕ → List ℕ → List (List ℕ)
split c [] = [] ∷ []
split c (x ∷ xs) = let rest = split c xs in if x == c then [] ∷ rest else grow x rest

-- The first field of SplitN at 2.
unfoldable pub first_field : ℕ → List ℕ → List ℕ
first_field c [] = []
first_field c (x ∷ xs) = let rest = first_field c xs in if x == c then [] else x ∷ rest

abbrev pub is_digit : ℕ → Bool
is_digit c = leb 48 c && leb c 57

unfoldable pub parse_digits : ℕ → List ℕ → Option ℕ
parse_digits n [] = some n
parse_digits n (c ∷ cs) =
    let rest = parse_digits (n * 10 + (c - 48)) cs in if is_digit c then rest else none

abbrev pub within : ℕ → Option ℕ → Option ℕ
within max none = none
within max (some n) = if ltb n max then some n else none

-- ParseUint in `bits` bits: no sign, at least one digit, in range.
unfoldable pub parse_uint : ℕ → List ℕ → Option ℕ
parse_uint bits [] = none
parse_uint bits (c ∷ cs) = within (2 ^ bits) (parse_digits 0 (c ∷ cs))

unfoldable pub natural : List ℕ → Option ℕ
natural [] = none
natural (c ∷ cs) = parse_digits 0 (c ∷ cs)

abbrev pub plus : Option ℕ → Option ℤ
plus none = none
plus (some n) = if ltb n (2 ^ 63) then some (pos n) else none

abbrev pub minus : Option ℕ → Option ℤ
minus none = none
minus (some zero) = some (pos 0)
minus (some (suc n)) = if ltb n (2 ^ 63) then some (negsuc n) else none

-- Atoi: a sign is allowed, and the range is that of int64.
unfoldable pub atoi : List ℕ → Option ℤ
atoi [] = none
atoi (c ∷ cs) =
    if c == 45
    then minus (natural cs)
    else if c == 43
    then plus (natural cs)
    else plus (natural (c ∷ cs))

parse_then : Option ℕ → List ℕ → Option ℕ
parse_then none ys = none
parse_then (some n) ys = parse_digits n ys

parse_digits-append :
    (n : ℕ) (xs ys : List ℕ) → parse_digits n (xs ++ ys) ≡ parse_then (parse_digits n xs) ys
unfolding parse_digits parse_then
parse_digits-append n [] ys = refl
parse_digits-append n (c ∷ cs) ys = elim (Bool-cases (is_digit c)) [
  | inl e ↦ rw (e, parse_digits) (parse_digits-append (n * 10 + (c - 48)) cs ys)
  | inr e ↦ rw (e, parse_digits) refl
]

digit_kept : (n d : ℕ) → d < 10 → parse_digits n ((48 + d) ∷ []) ≡ some (n * 10 + d)
unfolding parse_digits
digit_kept n d h =
    let e : is_digit (48 + d) ≡ true = ground arith in
    let same : n * 10 + (48 + d - 48) ≡ n * 10 + d = omega arith in rw (e, same) refl

-- A number that is printed is read back.
pub parse_digits-digits : (f n : ℕ) → n < pow10 f → 0 < f → parse_digits 0 (digits f n) ≡ some n
unfolding digits pow10 parse_then
parse_digits-digits zero n h p = absurd (omega arith)
parse_digits-digits (suc f) n h p = elim (Bool-cases (ltb n 10)) [
  | inl e ↦
      let same : 0 * 10 + n ≡ n = omega arith in
      rw (e, digits) (digit_kept 0 n (below n e) ∙ ap some same)
  | inr e ↦
      let front = parse_digits-digits f (n / 10) (omega arith) (more f n e h) in
      let whole : n / 10 * 10 + n % 10 ≡ n = omega arith in
      rw (e, digits)
        (parse_digits-append 0 (digits f (n / 10)) ((48 + n % 10) ∷ [])
          ∙ ap (λ o. parse_then o ((48 + n % 10) ∷ [])) front
          ∙ digit_kept (n / 10) (n % 10) (omega arith)
          ∙ ap some whole)
]
  where
    below : (n : ℕ) → ltb n 10 ≡ true → n < 10
    below n e = ground arith

    more : (f n : ℕ) → ltb n 10 ≡ false → n < pow10 (suc f) → 0 < f
    more zero n e h = ground arith
    more (suc f) n e h = omega arith

pub digits-All : (P : ℕ → Type 0) (f n : ℕ) → ((d : ℕ) → d < 10 → P (48 + d)) → All P (digits f n)
unfolding digits
digits-All P zero n h = tt
digits-All P (suc f) n h = elim (Bool-cases (ltb n 10)) [
  | inl e ↦ rw (e, digits) (h n (below n e), tt)
  | inr e ↦
      rw (e, digits)
        (All-append P (digits f (n / 10)) _ (digits-All P f (n / 10) h)
          (h (n % 10) (omega arith), tt))
]
  where
    below : (n : ℕ) → ltb n 10 ≡ true → n < 10
    below n e = ground arith

-- No byte of the field is the separator.
abbrev pub IsField : ℕ → List ℕ → Type 0
IsField c s = All (λ x. (x == c) ≡ false) s

pub split-field : (c : ℕ) (xs ys : List ℕ) → IsField c xs → split c (xs ++ c ∷ ys) ≡ xs ∷ split c ys
unfolding split
split-field c [] ys h = let e : (c == c) ≡ true = ground arith in rw e refl
split-field c (x ∷ xs) ys (e, h) = rw (e, split-field c xs ys h) refl

pub split-last : (c : ℕ) (xs : List ℕ) → IsField c xs → split c xs ≡ xs ∷ []
unfolding split
split-last c [] h = refl
split-last c (x ∷ xs) (e, h) = rw (e, split-last c xs h) refl

-- The first field is the first of all.
pub split-first_field :
    (c : ℕ) (s : List ℕ) → (ps : List (List ℕ)) × (split c s ≡ first_field c s ∷ ps)
unfolding split first_field
split-first_field c [] = ([], refl)
split-first_field c (x ∷ xs) =
    let (ps, e) = split-first_field c xs in
    elim (Bool-cases (x == c)) [
      | inl y ↦ rw (y, split, first_field) (split c xs, refl)
      | inr n ↦ rw (n, split, first_field, e) (ps, refl)
    ]

pub within-parts :
    (max : ℕ) (o : Option ℕ) (n : ℕ) → within max o ≡ some n → (o ≡ some n) × (n < max)
within-parts max none n h = absurd cc
within-parts max (some k) n h = elim (Bool-cases (ltb k max)) [
  | inl e ↦ let same : some k ≡ some n = rw e at h in (same, kept k n same (ground arith))
  | inr e ↦ let gone : none ≡ some n = rw e at h in absurd cc
]
  where
    kept : (k n : ℕ) → some k ≡ some n → k < max → n < max
    kept k n e h = let same : k ≡ n = cc in rw (← same) h

starts_digit :
    (m c : ℕ) (cs : List ℕ) (n : ℕ) → parse_digits m (c ∷ cs) ≡ some n → is_digit c ≡ true
unfolding parse_digits
starts_digit m c cs n h = elim (Bool-cases (is_digit c)) [
  | inl e ↦ e
  | inr e ↦ let gone : none ≡ some n = rw e at h in absurd cc
]

-- What the node takes for the number of a slot, the gateway takes for the same number.
pub atoi-parse_uint : (s : List ℕ) (n : ℕ) → parse_uint 16 s ≡ some n → atoi s ≡ some (pos n)
unfolding parse_uint atoi natural
atoi-parse_uint [] n h = absurd cc
atoi-parse_uint (c ∷ cs) n h =
    let (e, small) = within-parts (2 ^ 16) (parse_digits 0 (c ∷ cs)) n h in
    let first : is_digit c ≡ true = starts_digit 0 c cs n e in
    let no_minus : (c == 45) ≡ false = ground arith in
    let no_plus : (c == 43) ≡ false = ground arith in
    let fits : ltb n (2 ^ 63) ≡ true = ground arith in rw (no_minus, no_plus, e, fits) refl
