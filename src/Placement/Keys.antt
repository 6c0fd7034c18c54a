-- ===== src/Placement/Keys.antt =====
-- backend/gateway/entity/model-member.go (OwnerKey, itoa) and backend/queue/logic/engine/cluster.go
-- (OwnerKeyFor): the key that is hashed, as its bytes. strconv.Itoa is modelled as its definition, for
-- numbers of at most 20 digits.
use ryuk_dpq.Base.{
  ℕ, zero, suc, ◌+◌, ◌*◌, ◌/◌, ◌%◌, ◌^◌, ◌<◌, ◌≤◌, ◌≡◌, refl, sym, ◌∙◌, ap, String, Bool, true,
  false, not, Option, none, some, List, [], ◌∷◌, ◌++◌, ◌==◌, ==_iff, ltb, if◌then◌else◌, Bool-cases,
  inl, inr, arith,
}
use mathlib.Core.List.{append_assoc, append-nil}
use ryuk_dpq.Slotting.{utf8}

-- The decimal digits, from the first.
unfoldable pub digits : ℕ → ℕ → List ℕ
digits zero n = []
digits (suc f) n =
    let rest = digits f (n / 10) in if ltb n 10 then (48 + n) ∷ [] else rest ++ (48 + n % 10) ∷ []

unfoldable pub strconv_itoa : ℕ → List ℕ
strconv_itoa n = digits 20 n

-- The buffer has `i` cells before the digits written; `none` is the write before its start.
unfoldable pub itoa_loop : ℕ → ℕ → List ℕ → Option (List ℕ)
itoa_loop zero n b = if n == 0 then some b else none
itoa_loop (suc i) n b =
    let rest = itoa_loop i (n / 10) ((48 + n % 10) ∷ b) in if n == 0 then some b else rest

unfoldable pub itoa : ℕ → Option (List ℕ)
itoa n = if n == 0 then some (48 ∷ []) else itoa_loop 8 n []

-- "/slot-"
abbrev pub slot_infix : List ℕ
slot_infix = 47 ∷ 115 ∷ 108 ∷ 111 ∷ 116 ∷ 45 ∷ []

unfoldable pub owner_key : String → String → ℕ → Bool → Option (List ℕ)
owner_key org name slot distributed =
    let k = utf8 org ++ (47 ∷ utf8 name) in
    let placed = elim (itoa slot) as (λ _. Option (List ℕ)) [
      | none ↦ none
      | some d ↦ some (k ++ (slot_infix ++ d))
    ] in
    if not distributed then some k else placed

unfoldable pub owner_key_for : String → String → ℕ → Bool → List ℕ
owner_key_for org name slot distributed =
    let k = utf8 org ++ (47 ∷ utf8 name) in
    if not distributed then k else k ++ (slot_infix ++ strconv_itoa slot)

unfoldable pub pow10 : ℕ → ℕ
pow10 zero = 1
pow10 (suc i) = 10 * pow10 i

itoa_loop-digits :
    (i f n : ℕ) (b : List ℕ)
    → i ≤ f
    → 0 < n
    → n < pow10 i
    → itoa_loop i n b ≡ some (digits f n ++ b)
unfolding itoa_loop digits pow10
itoa_loop-digits zero f n b h p q = absurd (omega arith)
itoa_loop-digits (suc i) zero n b h p q = absurd (omega arith)
itoa_loop-digits (suc i) (suc f) n b h p q =
    let some_left : (n == 0) ≡ false = ground arith in
    elim (Bool-cases (ltb n 10)) [
      | inl e ↦
          let last : n / 10 ≡ 0 = omega (arith, below_ten n e) in
          let same : n % 10 ≡ n = omega (arith, below_ten n e) in
          rw (some_left, digits, e, last, same) (itoa_loop_done i _)
      | inr e ↦
          rw (some_left, digits, e)
            (itoa_loop-digits i f (n / 10) ((48 + n % 10) ∷ b) (omega arith)
                (omega (arith, above_ten n e)) (omega arith)
              ∙ ap some (sym (append_assoc (digits f (n / 10)) ((48 + n % 10) ∷ []) b)))
    ]
  where
    below_ten : (n : ℕ) → ltb n 10 ≡ true → n < 10
    below_ten n e = ground arith

    above_ten : (n : ℕ) → ltb n 10 ≡ false → 10 ≤ n
    above_ten n e = ground arith

    itoa_loop_done : (i : ℕ) (b : List ℕ) → itoa_loop i 0 b ≡ some b
    itoa_loop_done zero b = refl
    itoa_loop_done (suc i) b = refl

-- The gateway's own conversion agrees with strconv.Itoa below a hundred million, where its buffer of
-- eight bytes is enough.
itoa-strconv_itoa : (n : ℕ) → n < 100_000_000 → itoa n ≡ some (strconv_itoa n)
unfolding itoa strconv_itoa pow10 digits
itoa-strconv_itoa n h = elim (Bool-cases (n == 0)) [
  | inl e ↦ let zero_here : n ≡ 0 = (==_iff n 0).0 e in rw zero_here refl
  | inr e ↦
      rw (itoa, e)
        (itoa_loop-digits 8 20 n [] (omega arith) (ground arith) h
          ∙ ap some (append-nil (digits 20 n)))
]

-- For every slot that can be numbered, the gateway and the node hash the same key for its owner.
pub owner_key-owner_key_for :
    (org name : String) (slot : ℕ) (distributed : Bool)
    → slot < 2 ^ 16
    → owner_key org name slot distributed ≡ some (owner_key_for org name slot distributed)
unfolding owner_key owner_key_for
owner_key-owner_key_for org name slot true h = rw (itoa-strconv_itoa slot (omega arith)) refl
owner_key-owner_key_for org name slot false h = refl
