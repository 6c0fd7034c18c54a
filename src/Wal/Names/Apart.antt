-- ===== src/Wal/Names/Apart.antt =====
-- Which names share a directory.
use ryuk_dpq.Base.{
  ℕ, zero, suc, ◌/◌, ◌%◌, ◌<◌, ◌≡◌, ◌≢◌, refl, sym, ap, ◌∙◌, true, false, List, [], ◌∷◌, ◌++◌, ◌==◌,
  arith, ltb, All, All-append, All-parts, Bool-cases, inl, inr,
}
use mathlib.Core.List.{append_assoc, append_cancel_left}
use ryuk_dpq.Wire.Fields.{IsField, split, split-field, split-last}
use ryuk_dpq.Wal.Names.{
  plain_rune, hex_digit, hex_digits, hex_pair, sanitise, join, queues_name, dir,
}

hex_digits_low : (f n : ℕ) → n < 16 → hex_digits (suc f) n ≡ hex_digit n ∷ []
unfolding hex_digits
hex_digits_low f n h = let e : ltb n 16 ≡ true = ground arith in rw e refl

hex_digits_two :
    (f n : ℕ)
    → n / 16 < 16
    → ltb n 16 ≡ false
    → hex_digits (suc (suc f)) n ≡ hex_digit (n / 16) ∷ hex_digit (n % 16) ∷ []
unfolding hex_digits
hex_digits_two f n h e =
    rw (hex_digits, e) (ap (λ d. d ++ hex_digit (n % 16) ∷ []) (hex_digits_low f (n / 16) h))

hex_pair_byte : (n : ℕ) → n < 256 → hex_pair n ≡ hex_digit (n / 16) ∷ hex_digit (n % 16) ∷ []
unfolding hex_pair
hex_pair_byte n h = elim (Bool-cases (ltb n 16)) [
  | inl e ↦
      let high : n / 16 ≡ 0 = ground arith in
      let same : n % 16 ≡ n = ground arith in
      rw (hex_pair, e, hex_digits_low 5 n (ground arith), high, same) refl
  | inr e ↦ rw (hex_pair, e) (hex_digits_two 4 n (omega arith) e)
]

pub sanitise_plain :
    (r : ℕ) (rs : List ℕ) → plain_rune r ≡ true → sanitise (r ∷ rs) ≡ r ∷ sanitise rs
unfolding sanitise
sanitise_plain r rs e = rw e refl

sanitise_other :
    (r : ℕ) (rs : List ℕ)
    → plain_rune r ≡ false
    → sanitise (r ∷ rs) ≡ 126 ∷ (hex_pair r ++ sanitise rs)
unfolding sanitise
sanitise_other r rs e = rw e refl

hex_digit_injective : (a b : ℕ) → a < 16 → b < 16 → hex_digit a ≡ hex_digit b → a ≡ b
hex_digit_injective a b h k e = ground arith

plain_apart : (a : ℕ) → plain_rune a ≡ true → a ≢ 126
unfolding plain_rune
plain_apart a e h = ground arith

not_empty : (r : ℕ) (rs : List ℕ) → [] ≢ sanitise (r ∷ rs)
not_empty r rs e = elim (Bool-cases (plain_rune r)) [
  | inl p ↦ let gone = e ∙ sanitise_plain r rs p in cc
  | inr p ↦ let gone = e ∙ sanitise_other r rs p in cc
]

escaped :
    (r : ℕ) (rs : List ℕ)
    → r < 256
    → plain_rune r ≡ false
    → sanitise (r ∷ rs) ≡ 126 ∷ hex_digit (r / 16) ∷ hex_digit (r % 16) ∷ sanitise rs
escaped r rs h p = sanitise_other r rs p ∙ ap (λ d. 126 ∷ (d ++ sanitise rs)) (hex_pair_byte r h)

-- Two names whose runes are below 256 are escaped to one text only if they are one name.
pub sanitise-injective :
    (xs ys : List ℕ)
    → All (λ r. r < 256) xs
    → All (λ r. r < 256) ys
    → sanitise xs ≡ sanitise ys
    → xs ≡ ys
unfolding sanitise
sanitise-injective [] [] hx hy e = refl
sanitise-injective [] (y ∷ ys) hx hy e = absurd (not_empty y ys e)
sanitise-injective (x ∷ xs) [] hx hy e = absurd (not_empty x xs (sym e))
sanitise-injective (x ∷ xs) (y ∷ ys) (bx, hx) (by, hy) e = elim (Bool-cases (plain_rune x)) [
  | inl px ↦ elim (Bool-cases (plain_rune y)) [
    | inl py ↦
        let both = sym (sanitise_plain x xs px) ∙ e ∙ sanitise_plain y ys py in
        let same : x ≡ y = cc in rw same (ap (◌∷◌ y) (sanitise-injective xs ys hx hy (cc)))
    | inr py ↦
        let both = sym (sanitise_plain x xs px) ∙ e ∙ sanitise_other y ys py in
        absurd (plain_apart x px (cc))
  ]
  | inr px ↦ elim (Bool-cases (plain_rune y)) [
    | inl py ↦
        let both = sym (sanitise_other x xs px) ∙ e ∙ sanitise_plain y ys py in
        absurd (plain_apart y py (cc))
    | inr py ↦
        let both = sym (escaped x xs bx px) ∙ e ∙ escaped y ys by py in
        let high = hex_digit_injective (x / 16) (y / 16) (omega arith) (omega arith) (cc) in
        let low = hex_digit_injective (x % 16) (y % 16) (omega arith) (omega arith) (cc) in
        let same : x ≡ y = omega arith in rw same (ap (◌∷◌ y) (sanitise-injective xs ys hx hy (cc)))
  ]
]

hex_digit-IsField : (d : ℕ) → d < 16 → (hex_digit d == 47) ≡ false
hex_digit-IsField d h = ground arith

hex_digits-IsField : (f n : ℕ) → IsField 47 (hex_digits f n)
unfolding hex_digits
hex_digits-IsField zero n = tt
hex_digits-IsField (suc f) n = elim (Bool-cases (ltb n 16)) [
  | inl e ↦ rw (e, hex_digits) (hex_digit-IsField n (ground arith), tt)
  | inr e ↦
      rw (e, hex_digits)
        (All-append _ (hex_digits f (n / 16)) _ (hex_digits-IsField f (n / 16))
          (hex_digit-IsField (n % 16) (omega arith), tt))
]

hex_pair-IsField : (n : ℕ) → IsField 47 (hex_pair n)
unfolding hex_pair
hex_pair-IsField n = elim (Bool-cases (ltb n 16)) [
  | inl e ↦ rw (e, hex_pair) (refl, hex_digits-IsField 6 n)
  | inr e ↦ rw (e, hex_pair) (hex_digits-IsField 6 n)
]

plain_rune_slash : (r : ℕ) → plain_rune r ≡ true → (r == 47) ≡ false
unfolding plain_rune
plain_rune_slash r p = ground arith

escapes_some : (s : List ℕ) → s ≢ [] → sanitise s ≢ []
unfolding sanitise
escapes_some [] h e = h refl
escapes_some (r ∷ rs) h e = not_empty r rs (sym e)

-- An escaped name has no slash.
sanitise-IsField : (s : List ℕ) → IsField 47 (sanitise s)
sanitise-IsField [] = unfold sanitise in tt
sanitise-IsField (r ∷ rs) = elim (Bool-cases (plain_rune r)) [
  | inl p ↦ rw (sanitise_plain r rs p) (plain_rune_slash r p, sanitise-IsField rs)
  | inr p ↦
      rw (sanitise_other r rs p)
        (refl, All-append _ (hex_pair r) _ (hex_pair-IsField r) (sanitise-IsField rs))
]

join-some : (path s : List ℕ) → s ≢ [] → join path s ≡ path ++ (47 ∷ s)
unfolding join
join-some path [] h = absurd (h refl)
join-some path (c ∷ cs) h = refl

-- The path of a queue's directory, as its elements.
dir_parts :
    (root org name : List ℕ)
    → org ≢ []
    → name ≢ []
    → dir root org name ≡ join root queues_name ++ (47 ∷ (sanitise org ++ (47 ∷ sanitise name)))
unfolding dir
dir_parts root org name h k =
    join-some (join (join root queues_name) (sanitise org)) (sanitise name) (escapes_some name k)
    ∙ ap (λ p. p ++ (47 ∷ sanitise name))
        (join-some (join root queues_name) (sanitise org) (escapes_some org h))
    ∙ append_assoc (join root queues_name) (47 ∷ sanitise org) (47 ∷ sanitise name)

-- Two queues whose names are not empty and have only runes below 256 share a directory only if they
-- are one queue.
pub dir_apart :
    (root org name org' name' : List ℕ)
    → org ≢ []
    → name ≢ []
    → org' ≢ []
    → name' ≢ []
    → All (λ r. r < 256) (org ++ name)
    → All (λ r. r < 256) (org' ++ name')
    → dir root org name ≡ dir root org' name'
    → (org ≡ org') × (name ≡ name')
dir_apart root org name org' name' ho hn ho' hn' b b' e =
    let (bo, bn) = All-parts _ org name b in
    let (bo', bn') = All-parts _ org' name' b' in
    let whole = sym (dir_parts root org name ho hn) ∙ e ∙ dir_parts root org' name' ho' hn' in
    let tail = append_cancel_left (join root queues_name) _ _ whole in
    let fields : split 47 (sanitise org ++ (47 ∷ sanitise name))
        ≡ split 47 (sanitise org' ++ (47 ∷ sanitise name')) =
      ap (split 47) (cc) in
    let first =
      sym (split-field 47 (sanitise org) (sanitise name) (sanitise-IsField org))
      ∙ fields
      ∙ split-field 47 (sanitise org') (sanitise name') (sanitise-IsField org') in
    let second =
      sym (split-last 47 (sanitise name) (sanitise-IsField name))
      ∙ (cc)
      ∙ split-last 47 (sanitise name') (sanitise-IsField name') in
    (sanitise-injective org org' bo bo' (cc), sanitise-injective name name' bn bn' (cc))
