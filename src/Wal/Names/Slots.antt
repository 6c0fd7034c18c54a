-- ===== src/Wal/Names/Slots.antt =====
-- The number of a slot in the name of its file, and the names that the gateway accepts.
use ryuk_dpq.Base.{
  ℕ, zero, suc, ◌<◌, ◌^◌, ◌≡◌, ◌≢◌, refl, ap, ◌∙◌, true, false, some, List, [], ◌∷◌, ◌++◌, ◌==◌,
  arith, ltb, All, Bool-cases, inl, inr, length,
}
use ryuk_dpq.Placement.Keys.{digits, pow10, strconv_itoa}
use ryuk_dpq.Wire.Fields.{
  parse_digits, parse_uint, digits-All, parse_digits-digits, atoi-parse_uint,
}
use ryuk_dpq.Wal.Names.{
  plain_rune, sanitise, name_fits, all_plain, queue_name, pad, log_suffix, slot_file_name,
  same_bytes, trim_suffix, trim_prefix, slot_from_name, Listed, list_keys, names_in,
}
use ryuk_dpq.Wal.Names.Apart.{sanitise_plain}

parse_digits-pad : (k : ℕ) (s : List ℕ) → parse_digits 0 (pad k s) ≡ parse_digits 0 s
unfolding pad parse_digits
parse_digits-pad zero s = refl
parse_digits-pad (suc k) s = elim (Bool-cases (ltb (length s) (suc k))) [
  | inl e ↦ rw (e, pad) (parse_digits-pad k s)
  | inr e ↦ rw (e, pad) refl
]

pad-All : (P : ℕ → Type 0) (k : ℕ) (s : List ℕ) → P 48 → All P s → All P (pad k s)
unfolding pad
pad-All P zero s z h = h
pad-All P (suc k) s z h = elim (Bool-cases (ltb (length s) (suc k))) [
  | inl e ↦ rw (e, pad) (z, pad-All P k s z h)
  | inr e ↦ rw (e, pad) h
]

absurd_list : {c : ℕ} {cs : List ℕ} → c ∷ cs ≡ [] → ⊥
absurd_list e = absurd cc

pad_some : (k : ℕ) (s : List ℕ) → pad (suc k) s ≢ []
unfolding pad
pad_some k [] e =
    let y : ltb 0 (suc k) ≡ true = ground arith in
    let gone : 48 ∷ pad k [] ≡ [] = rw (y, pad) at e in absurd_list gone
pad_some k (c ∷ cs) e = elim (Bool-cases (ltb (length (c ∷ cs)) (suc k))) [
  | inl y ↦ let gone : 48 ∷ pad k (c ∷ cs) ≡ [] = rw (y, pad) at e in absurd_list gone
  | inr n ↦ let gone : c ∷ cs ≡ [] = rw (n, pad) at e in absurd_list gone
]

parse_uint-parse_digits :
    (s : List ℕ) (n : ℕ)
    → s ≢ []
    → parse_digits 0 s ≡ some n
    → n < 2 ^ 16
    → parse_uint 16 s ≡ some n
unfolding parse_uint
parse_uint-parse_digits [] n h e k = absurd (h refl)
parse_uint-parse_digits (c ∷ cs) n h e k =
    let fits : ltb n (2 ^ 16) ≡ true = ground arith in rw (e, fits) refl

trim_suffix-append :
    (s : List ℕ)
    → All (λ x. (x == 46) ≡ false) s
    → trim_suffix log_suffix (s ++ log_suffix) ≡ some s
unfolding trim_suffix same_bytes
trim_suffix-append [] h = refl
trim_suffix-append (c ∷ cs) (p, h) =
    let q : (46 == c) ≡ false = ground arith in
    rw (trim_suffix, same_bytes, q, trim_suffix-append cs h) refl

-- The file of a slot is read back as the slot, for every number that a slot can have.
pub slot_from_name-slot_file_name :
    (id : ℕ) → id < 2 ^ 16 → slot_from_name (slot_file_name id) ≡ some id
unfolding slot_from_name slot_file_name strconv_itoa trim_prefix pow10
slot_from_name-slot_file_name id h =
    let whole =
      parse_digits-pad 4 (digits 20 id) ∙ parse_digits-digits 20 id (omega arith) (omega arith) in
    let read =
      atoi-parse_uint (pad 4 (digits 20 id)) id
        (parse_uint-parse_digits (pad 4 (digits 20 id)) id (pad_some 3 (digits 20 id)) whole h) in
    let no_dot =
      pad-All (λ x. (x == 46) ≡ false) 4 (digits 20 id) refl
        (digits-All (λ x. (x == 46) ≡ false) 20 id (λ d k. ground arith)) in
    let cut = trim_suffix-append (pad 4 (digits 20 id)) no_dot in
    let small : ltb 65535 id ≡ false = ground arith in rw (slot_from_name, cut, read, small) refl

all_plain-sanitise : (s : List ℕ) → all_plain s ≡ true → sanitise s ≡ s
unfolding all_plain sanitise
all_plain-sanitise [] h = refl
all_plain-sanitise (r ∷ rs) h =
    let first : plain_rune r ≡ true = ground arith in
    let others : all_plain rs ≡ true = ground arith in
    sanitise_plain r rs first ∙ ap (◌∷◌ r) (all_plain-sanitise rs others)

queue_name-all_plain :
    (bytes : ℕ) (s : List ℕ) → queue_name bytes s ≡ name_fits → all_plain s ≡ true
unfolding queue_name
queue_name-all_plain bytes s h = ground arith

-- A name that the gateway accepts is the name of its directory.
pub queue_name-sanitise : (bytes : ℕ) (s : List ℕ) → queue_name bytes s ≡ name_fits → sanitise s ≡ s
queue_name-sanitise bytes s h = all_plain-sanitise s (queue_name-all_plain bytes s h)

-- The directories of some queues, an organisation at a time, and the queues.
abbrev pub queue_dirs : List (List ℕ) → List Listed
queue_dirs [] = []
queue_dirs (n ∷ ns) = record { name = sanitise n; is_dir = true } ∷ queue_dirs ns

abbrev pub tree : List (List ℕ × List (List ℕ)) → List (Listed × List Listed)
tree [] = []
tree ((o, ns) ∷ os) = (record { name = sanitise o; is_dir = true }, queue_dirs ns) ∷ tree os

abbrev pub keys_of : List ℕ → List (List ℕ) → List (List ℕ × List ℕ)
keys_of o [] = []
keys_of o (n ∷ ns) = (o, n) ∷ keys_of o ns

abbrev pub all_keys : List (List ℕ × List (List ℕ)) → List (List ℕ × List ℕ)
all_keys [] = []
all_keys ((o, ns) ∷ os) = keys_of o ns ++ all_keys os

-- The gateway accepts the name.
abbrev pub IsAccepted : List ℕ → Type 0
IsAccepted s = queue_name (length s) s ≡ name_fits

names_in-queue_dirs :
    (o : List ℕ) (ns : List (List ℕ))
    → All IsAccepted ns
    → names_in o (queue_dirs ns) ≡ keys_of o ns
unfolding names_in
names_in-queue_dirs o [] h = refl
names_in-queue_dirs o (n ∷ ns) (a, h) =
    rw (queue_name-sanitise (length n) n a) (ap (◌∷◌ (o, n)) (names_in-queue_dirs o ns h))

-- Where all the names are accepted ones, what a node lists after a restart are the queues whose
-- directories were made.
pub list_keys-tree :
    (os : List (List ℕ × List (List ℕ)))
    → All (λ e. IsAccepted e.0 × All IsAccepted e.1) os
    → list_keys (tree os) ≡ all_keys os
unfolding list_keys
list_keys-tree [] h = refl
list_keys-tree ((o, ns) ∷ os) (a, h) =
    rw (queue_name-sanitise (length o) o a.0, names_in-queue_dirs o ns a.1, list_keys-tree os h)
      refl
