-- ===== src/Wal/Codec.antt =====
-- A codec of the payloads of one message, "m1", which shows that what is asked of encoding/json can
-- hold: numbers and bytes are written as they are, and nothing else is written.
use ryuk_dpq.Base.{
  ℕ, ◌≡◌, refl, sym, ◌∙◌, ap, Bool, true, false, ◌&&◌, Option, none, some, List, [], ◌∷◌, arith,
  str_eq, eq_iff, if◌then◌else◌,
}
use ryuk_dpq.Wal.Letters.{DeadLetterPayload, LetterJson}
use ryuk_dpq.Wal.Replay.{Json, EnqueuePayload, AttemptPayload, TerminalPayload}

abbrev is_none : Option ℕ → Bool
is_none none = true
is_none (some n) = false

abbrev plain : EnqueuePayload → Bool
plain p =
    str_eq p.id "m1" && str_eq p.group_id "" && is_none p.expires_at && is_none p.deliver_after

abbrev plain_of : EnqueuePayload → EnqueuePayload
plain_of p = record p { id = "m1"; group_id = ""; expires_at = none; deliver_after = none }

plain_of-plain : (p : EnqueuePayload) → plain p ≡ true → plain_of p ≡ p
plain_of-plain p h =
    let i : p.id ≡ "m1" = ground (arith, eq_iff p.id "m1") in
    let g : p.group_id ≡ "" = ground (arith, eq_iff p.group_id "") in
    let e : p.expires_at ≡ none = ground arith in
    let d : p.deliver_after ≡ none = ground arith in
    sym (
      ap (λ x. record p { id = x }) i
      ∙ ap (λ x. record p { id = "m1"; group_id = x }) g
      ∙ ap (λ x. record p { id = "m1"; group_id = ""; expires_at = x }) e
      ∙ ap (λ x. record p { id = "m1"; group_id = ""; expires_at = none; deliver_after = x }) d)

unfoldable pub write_plain : EnqueuePayload → Option (List ℕ)
write_plain p = if plain p then some (p.priority ∷ p.seq ∷ p.enqueued_at ∷ p.payload) else none

unfoldable pub read_plain : List ℕ → Option EnqueuePayload
read_plain (a ∷ b ∷ c ∷ bs) = some (record {
  id = "m1";
  payload = bs;
  priority = a;
  group_id = "";
  seq = b;
  enqueued_at = c;
  expires_at = none;
  deliver_after = none;
})
read_plain bs = none

if_some : (b : Bool) (x y : List ℕ) → (if b then some x else none) ≡ some y → (b ≡ true) × (x ≡ y)
if_some true x y h = (refl, cc)
if_some false x y h = cc

pub read-write : (p : EnqueuePayload) (b : List ℕ) → write_plain p ≡ some b → read_plain b ≡ some p
unfolding write_plain read_plain
read-write p b h =
    let (t, e) = if_some (plain p) (p.priority ∷ p.seq ∷ p.enqueued_at ∷ p.payload) b h in
    ap read_plain (sym e) ∙ ap some (plain_of-plain p t)

unfoldable pub write_count : AttemptPayload → Option (List ℕ)
write_count p = if str_eq p.id "m1" then some (p.attempts ∷ p.epoch ∷ []) else none

unfoldable pub read_count : List ℕ → Option AttemptPayload
read_count (a ∷ b ∷ bs) = some (record { id = "m1"; attempts = a; epoch = b })
read_count bs = none

pub read-write_count :
    (p : AttemptPayload) (b : List ℕ) → write_count p ≡ some b → read_count b ≡ some p
unfolding write_count read_count
read-write_count p b h =
    let (t, e) = if_some (str_eq p.id "m1") (p.attempts ∷ p.epoch ∷ []) b h in
    ap read_count (sym e) ∙ ap (λ x. some (record p { id = x })) (sym ((eq_iff p.id "m1").0 t))

unfoldable pub codec : Json
unfolding write_plain read_plain write_count read_count
codec = record {
  marshal_enqueue = write_plain;
  unmarshal_enqueue = read_plain;
  marshal_attempt = write_count;
  unmarshal_attempt = read_count;
  marshal_terminal = λ p. if str_eq p.id "m1" then some (p.kind ∷ []) else none;
  unmarshal_terminal = λ bs. elim bs as (λ _. Option TerminalPayload) [
    | [] ↦ none
    | k ∷ ks ↦ some (record { id = "m1"; kind = k })
  ];
  enqueue_back = read-write;
  attempt_back = read-write_count;
}

unfoldable pub write_letter : DeadLetterPayload → Option (List ℕ)
write_letter p = elim (write_plain p.msg) as (λ _. Option (List ℕ)) [
  | none ↦ none
  | some b ↦ some (p.slot ∷ b)
]

unfoldable pub read_letter : List ℕ → Option DeadLetterPayload
read_letter [] = none
read_letter (s ∷ b) = elim (read_plain b) as (λ _. Option DeadLetterPayload) [
  | none ↦ none
  | some p ↦ some (record { slot = s; msg = p })
]

pub read-write_letter :
    (p : DeadLetterPayload) (b : List ℕ) → write_letter p ≡ some b → read_letter b ≡ some p
unfolding write_letter read_letter
read-write_letter p b h = go (write_plain p.msg) refl h
  where
    go :
        (o : Option (List ℕ))
        → write_plain p.msg ≡ o
        → (elim o as (λ _. Option (List ℕ)) [ none ↦ none | some c ↦ some (p.slot ∷ c) ]) ≡ some b
        → read_letter b ≡ some p
    go none e g = absurd cc
    go (some c) e g =
        let same : p.slot ∷ c ≡ b = cc in rw (← same, read-write p.msg c e, read_letter) refl

unfoldable pub write_drained : TerminalPayload → Option (List ℕ)
write_drained p = if str_eq p.id "m1" then some (p.kind ∷ []) else none

unfoldable pub read_drained : List ℕ → Option TerminalPayload
read_drained (k ∷ []) = some (record { id = "m1"; kind = k })
read_drained b = none

pub read-write_drained :
    (p : TerminalPayload) (b : List ℕ) → write_drained p ≡ some b → read_drained b ≡ some p
unfolding write_drained read_drained
read-write_drained p b h =
    let (t, e) = if_some (str_eq p.id "m1") (p.kind ∷ []) b h in
    let same : p.id ≡ "m1" = (eq_iff p.id "m1").0 t in
    ap read_drained (sym e) ∙ ap (λ i. some (record { id = i; kind = p.kind })) (sym same)

unfoldable pub letter_codec : LetterJson
unfolding write_letter read_letter write_drained read_drained
letter_codec = record {
  marshal_letter = write_letter;
  unmarshal_letter = read_letter;
  marshal_terminal = write_drained;
  unmarshal_terminal = read_drained;
  letter_back = read-write_letter;
  terminal_back = read-write_drained;
}
