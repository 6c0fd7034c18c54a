-- ===== src/Wire/Receipts.antt =====
-- backend/queue/entity/receipt.go, and slotFromReceipt of backend/gateway/logic/routing-logic.go: the
-- token of a delivery. base64.RawURLEncoding is a parameter, which decodes what it encoded; a token
-- and an identifier are their bytes, and an error of the decoder is its case.
use ryuk_dpq.Base.{
  ℕ, suc, ◌<◌, ◌^◌, ◌≡◌, refl, ap, ◌∙◌, true, false, Option, none, some, List, [], ◌∷◌, ◌++◌, ◌==◌,
  arith, ltb, Bool-cases, Option-cases, inl, inr, length, length-append, ◌+◌, ◌/◌, ◌%◌,
}
use ryuk_dpq.Base.Int.{ℤ, pos}
use ryuk_dpq.Slotting.{utf8}
use ryuk_dpq.Engine.Message.{Receipt}
use ryuk_dpq.Placement.Keys.{digits, pow10, strconv_itoa}
use ryuk_dpq.Wire.Fields.{
  split, first_field, parse_digits, parse_uint, atoi, IsField, digits-All, parse_digits-digits,
  split-field, split-last, split-first_field, atoi-parse_uint,
}

pub record Base64 : Type 0 where
  pub encode_bytes : List ℕ → List ℕ
  pub decode_bytes : List ℕ → Option (List ℕ)
  pub decode_back : (b : List ℕ) → decode_bytes (encode_bytes b) ≡ some b

-- The receipt that a token names.
pub record Named : Type 0 where
  pub slot : ℕ
  pub message_id : List ℕ
  pub epoch : ℕ
  pub incarnation : ℕ

pub data Decoded : Type 0 where
  named : Named → Decoded
  bad_encoding : Decoded
  bad_count : ℕ → Decoded
  bad_slot : Decoded
  bad_epoch : Decoded
  bad_incarnation : Decoded

-- ":"
abbrev pub colon : ℕ
colon = 58

unfoldable pub receipt_text : Receipt → List ℕ
receipt_text r =
    strconv_itoa r.slot
    ++ (colon
        ∷ (utf8 r.message_id
            ++ (colon ∷ (strconv_itoa r.epoch ++ (colon ∷ strconv_itoa r.incarnation)))))

-- The numbers of four fields, checked in their order.
unfoldable pub name_parts : List ℕ → List ℕ → List ℕ → List ℕ → Decoded
name_parts s id e i = elim (parse_uint 16 s) as (λ _. Decoded) [
  | none ↦ bad_slot
  | some slot ↦ elim (parse_uint 64 e) as (λ _. Decoded) [
    | none ↦ bad_epoch
    | some epoch ↦ elim (parse_uint 64 i) as (λ _. Decoded) [
      | none ↦ bad_incarnation
      | some inc ↦ named (record { slot = slot; message_id = id; epoch = epoch; incarnation = inc })
    ]
  ]
]

unfoldable pub decode_parts : List (List ℕ) → Decoded
decode_parts (s ∷ id ∷ e ∷ i ∷ []) = name_parts s id e i
decode_parts parts = bad_count (length parts)

module _ (b : Base64) where
  unfoldable pub encode_receipt : Receipt → List ℕ
  encode_receipt r = b.encode_bytes (receipt_text r)

  unfoldable pub decode_receipt : List ℕ → Decoded
  decode_receipt s = elim (b.decode_bytes s) as (λ _. Decoded) [
    | none ↦ bad_encoding
    | some raw ↦ decode_parts (split colon raw)
  ]

  unfoldable pub slot_from_receipt : List ℕ → Option ℤ
  slot_from_receipt s = elim (b.decode_bytes s) as (λ _. Option ℤ) [
    | none ↦ none
    | some raw ↦ atoi (first_field colon raw)
  ]

number-IsField : (n : ℕ) → IsField colon (strconv_itoa n)
unfolding strconv_itoa
number-IsField n = digits-All (λ x. (x == colon) ≡ false) 20 n (λ d h. ground arith)

some_digit : (f n : ℕ) → (length (digits (suc f) n) == 0) ≡ false
unfolding digits
some_digit f n = elim (Bool-cases (ltb n 10)) [
  | inl e ↦ rw (digits, e) refl
  | inr e ↦
      let sum = length-append (digits f (n / 10)) ((48 + n % 10) ∷ []) in
      rw (digits, e) (ground (arith, sum))
]

parse_uint-itoa :
    (bits n : ℕ) → n < 2 ^ bits → n < pow10 20 → parse_uint bits (strconv_itoa n) ≡ some n
unfolding parse_uint strconv_itoa
parse_uint-itoa bits n h small =
    go (digits 20 n) (parse_digits-digits 20 n small (omega arith)) (some_digit 19 n)
  where
    go :
        (s : List ℕ)
        → parse_digits 0 s ≡ some n
        → (length s == 0) ≡ false
        → parse_uint bits s ≡ some n
    go [] e p = absurd cc
    go (c ∷ cs) e p = let fits : ltb n (2 ^ bits) ≡ true = ground arith in rw (e, fits) refl

-- A receipt with numbers of their sizes, and no colon in the identifier of its message, is named by
-- the token that is made of it.
pub decode_receipt-encode_receipt :
    (b : Base64) (r : Receipt)
    → r.slot < 2 ^ 16
    → r.epoch < 2 ^ 64
    → r.incarnation < 2 ^ 64
    → IsField colon (utf8 r.message_id)
    → decode_receipt b (encode_receipt b r)
      ≡ named (record {
        slot = r.slot;
        message_id = utf8 r.message_id;
        epoch = r.epoch;
        incarnation = r.incarnation;
      })
unfolding decode_receipt encode_receipt receipt_text decode_parts name_parts pow10
decode_receipt-encode_receipt b r hs he hi clean =
    let id = utf8 r.message_id in
    let e = strconv_itoa r.epoch in
    let i = strconv_itoa r.incarnation in
    let slot_apart =
      split-field colon (strconv_itoa r.slot) (id ++ (colon ∷ (e ++ (colon ∷ i))))
        (number-IsField r.slot) in
    let id_apart = split-field colon id (e ++ (colon ∷ i)) clean in
    let epoch_apart = split-field colon e i (number-IsField r.epoch) in
    let last = split-last colon i (number-IsField r.incarnation) in
    let slot_read = parse_uint-itoa 16 r.slot hs (omega arith) in
    let epoch_read = parse_uint-itoa 64 r.epoch he (omega arith) in
    let inc_read = parse_uint-itoa 64 r.incarnation hi (omega arith) in
    rw
      (
        decode_receipt,
        encode_receipt,
        b.decode_back (receipt_text r),
        receipt_text,
        slot_apart,
        id_apart,
        epoch_apart,
        last,
        decode_parts,
        name_parts,
        slot_read,
        epoch_read,
        inc_read,
      )
      refl

name_parts-slot :
    (s id e i : List ℕ) (n : Named) → name_parts s id e i ≡ named n → parse_uint 16 s ≡ some n.slot
unfolding name_parts
name_parts-slot s id e i n h = elim (Option-cases (parse_uint 16 s)) [
  | inl none_here ↦ let gone : bad_slot ≡ named n = rw (name_parts, none_here) at h in absurd cc
  | inr (slot, es) ↦ elim (Option-cases (parse_uint 64 e)) [
    | inl none_here ↦
        let gone : bad_epoch ≡ named n = rw (name_parts, es, none_here) at h in absurd cc
    | inr (epoch, ee) ↦ elim (Option-cases (parse_uint 64 i)) [
      | inl none_here ↦
          let gone : bad_incarnation ≡ named n = rw (name_parts, es, ee, none_here) at h in
          absurd cc
      | inr (inc, ei) ↦ let same = rw (name_parts, es, ee, ei) at h in es ∙ ap slot_of same
    ]
  ]
]
  where
    slot_of : Decoded → Option ℕ
    slot_of (named m) = some m.slot
    slot_of _ = none

decode_parts-slot :
    (p : List ℕ) (ps : List (List ℕ)) (n : Named)
    → decode_parts (p ∷ ps) ≡ named n
    → parse_uint 16 p ≡ some n.slot
unfolding decode_parts
decode_parts-slot p [] n h = absurd cc
decode_parts-slot p (a ∷ []) n h = absurd cc
decode_parts-slot p (a ∷ c ∷ []) n h = absurd cc
decode_parts-slot p (a ∷ c ∷ d ∷ []) n h = name_parts-slot p a c d n h
decode_parts-slot p (a ∷ c ∷ d ∷ x ∷ xs) n h = absurd cc

-- Whatever the token: the slot that the gateway sends an acknowledgement to is the slot that the node
-- reads from the token, where the node accepts it.
pub slot_from_receipt-decode_receipt :
    (b : Base64) (s : List ℕ) (n : Named)
    → decode_receipt b s ≡ named n
    → slot_from_receipt b s ≡ some (pos n.slot)
unfolding decode_receipt slot_from_receipt decode_parts name_parts
slot_from_receipt-decode_receipt b s n h = elim (Option-cases (b.decode_bytes s)) [
  | inl e ↦ let gone : bad_encoding ≡ named n = rw (decode_receipt, e) at h in absurd cc
  | inr (raw, e) ↦
      let (ps, fields) = split-first_field colon raw in
      let parts : decode_parts (first_field colon raw ∷ ps) ≡ named n =
        rw (decode_receipt, e, fields) at h in
      let slot = decode_parts-slot (first_field colon raw) ps n parts in
      rw (slot_from_receipt, e) (atoi-parse_uint (first_field colon raw) n.slot slot)
]
