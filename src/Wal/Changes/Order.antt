-- ===== src/Wal/Changes/Order.antt =====
-- The entries in the order of their keys are those of the map, each once, where no key returns.
use ryuk_dpq.Base.{
  ℕ, ◌+◌, ◌≡◌, refl, sym, ap, ◌∙◌, String, Bool, true, false, ◌||◌, Option, none, some, List, [],
  ◌∷◌, ◌++◌, if◌then◌else◌, if_cases, str_eq, eq_iff, total, arith, inl, inr, Bool-cases,
  Option-cases, All,
}
use ryuk_dpq.Base.Dict.{lookup, put, delete, IsKeyed}
use ryuk_dpq.Wal.Changes.{Change, is_set}
use ryuk_dpq.Wal.Changes.Replayed.{value_weight}

unfoldable pub has_key : String → List String → Bool
has_key k [] = false
has_key k (j ∷ ks) = str_eq j k || has_key k ks

abbrev pub AreDistinct : List String → Type 0
AreDistinct [] = Unit
AreDistinct (k ∷ ks) = (has_key k ks ≡ false) × AreDistinct ks

one_key :
    (j : String) (n : ℕ) (ks : List String)
    → AreDistinct ks
    → total (λ k. if str_eq j k then n else 0) ks ≡ (if has_key j ks then n else 0)
unfolding has_key
one_key j n [] d = refl
one_key j n (k ∷ ks) d = ground (arith, eq_iff j k, eq_iff k j, d.0, one_key j n ks d.1)

pub has_key-append :
    (i k : String) (ks : List String) → has_key i (ks ++ k ∷ []) ≡ (has_key i ks || str_eq k i)
unfolding has_key
has_key-append i k [] = ground arith
has_key-append i k (j ∷ ks) = ground (arith, has_key-append i k ks)

pub AreDistinct-append :
    (k : String) (ks : List String)
    → has_key k ks ≡ false
    → AreDistinct ks
    → AreDistinct (ks ++ k ∷ [])
unfolding has_key
AreDistinct-append k [] h d = (refl, tt)
AreDistinct-append k (j ∷ ks) h d = (
  ground (arith, h, d.0, eq_iff k j, eq_iff j k, has_key-append j k ks),
  AreDistinct-append k ks (ground (arith, h)) d.1,
)

module _ {V : Type 0} where
  abbrev pub IsCovered : List (String × V) → List String → Type 0
  IsCovered m ks = All (λ (e : String × V). has_key e.0 ks ≡ true) m

  -- Keys that were met and are gone are not set again.
  abbrev pub AreRetired : List (String × V) → List String → List (Change V) → Type 0
  AreRetired m ks cs = (k : String) → has_key k ks ≡ true → lookup k m ≡ none → is_set k cs ≡ false

  unfoldable pub in_order : List (String × V) → List String → List V
  in_order m [] = []
  in_order m (k ∷ ks) = elim (lookup k m) [ none ↦ in_order m ks | some v ↦ v ∷ in_order m ks ]

  abbrev weigh_found : (V → ℕ) → Option V → ℕ
  weigh_found w none = 0
  weigh_found w (some v) = w v

  total-in_order :
      (w : V → ℕ) (m : List (String × V)) (ks : List String)
      → total w (in_order m ks) ≡ total (λ k. weigh_found w (lookup k m)) ks
  unfolding in_order
  total-in_order w m [] = refl
  total-in_order w m (k ∷ ks) = elim (Option-cases (lookup k m)) [
    | inl e ↦ rw (in_order, e) (omega (arith, total-in_order w m ks))
    | inr (v, e) ↦ rw (in_order, e) (omega (arith, total-in_order w m ks))
  ]

  found_first :
      (w : V → ℕ) (j k : String) (x : V) (m : List (String × V))
      → lookup j m ≡ none
      → weigh_found w (lookup k ((j, x) ∷ m))
        ≡ (if str_eq j k then w x else 0) + weigh_found w (lookup k m)
  unfolding lookup
  found_first w j k x m h = elim (Bool-cases (str_eq j k)) [
    | inl y ↦
        let same : j ≡ k = (eq_iff j k).0 y in
        let gone : lookup k m ≡ none = ap (λ i. lookup i m) (sym same) ∙ h in
        rw (y, gone) (omega arith)
    | inr n ↦ rw n (omega arith)
  ]

  total-found_first :
      (w : V → ℕ) (j : String) (x : V) (m : List (String × V)) (ks : List String)
      → lookup j m ≡ none
      → total (λ k. weigh_found w (lookup k ((j, x) ∷ m))) ks
        ≡ total (λ k. if str_eq j k then w x else 0) ks + total (λ k. weigh_found w (lookup k m)) ks
  total-found_first w j x m [] h = refl
  total-found_first w j x m (k ∷ ks) h =
      omega (arith, found_first w j k x m h, total-found_first w j x m ks h)

  total-nothing : (w : V → ℕ) (ks : List String) → total (λ k. weigh_found w (lookup k [])) ks ≡ 0
  unfolding lookup
  total-nothing w [] = refl
  total-nothing w (k ∷ ks) = omega (arith, total-nothing w ks)

  total-found :
      (w : V → ℕ) (m : List (String × V)) (ks : List String)
      → IsKeyed m
      → AreDistinct ks
      → IsCovered m ks
      → total (λ k. weigh_found w (lookup k m)) ks ≡ total (value_weight w) m
  total-found w [] ks u d c = total-nothing w ks
  total-found w ((j, x) ∷ m) ks u d c =
      let one = one_key j (w x) ks d in
      let here : (if has_key j ks then w x else 0) ≡ w x = rw c.0 refl in
      omega (arith, total-found_first w j x m ks u.0, one, here, total-found w m ks u.1 d c.1)

  pub put-All :
      (P : String → Type 0) (k : String) (v : V) (m : List (String × V))
      → P k
      → All (λ (e : String × V). P e.0) m
      → All (λ (e : String × V). P e.0) (put k v m)
  unfolding put
  put-All P k v [] p h = (p, tt)
  put-All P k v ((j, x) ∷ m) p h =
      if_cases (All (λ (e : String × V). P e.0)) (str_eq j k) (λ _. (p, h.1))
        (λ _. (h.0, put-All P k v m p h.1))

  pub delete-All :
      (P : String → Type 0) (k : String) (m : List (String × V))
      → All (λ (e : String × V). P e.0) m
      → All (λ (e : String × V). P e.0) (delete k m)
  unfolding delete
  delete-All P k [] h = tt
  delete-All P k ((j, x) ∷ m) h =
      if_cases (All (λ (e : String × V). P e.0)) (str_eq j k) (λ _. delete-All P k m h.1)
        (λ _. (h.0, delete-All P k m h.1))

  pub lookup-IsCovered :
      (k : String) (v : V) (m : List (String × V)) (ks : List String)
      → IsCovered m ks
      → lookup k m ≡ some v
      → has_key k ks ≡ true
  unfolding lookup
  lookup-IsCovered k v [] ks c e = cc
  lookup-IsCovered k v ((j, x) ∷ m) ks c e =
      ground (arith, eq_iff j k, c.0, lookup-IsCovered k v m ks c.1)

  pub widen :
      (k : String) (m : List (String × V)) (ks : List String)
      → IsCovered m ks
      → IsCovered m (ks ++ k ∷ [])
  widen k [] ks c = tt
  widen k ((j, x) ∷ m) ks c = (has_key-append j k ks ∙ rw c.0 refl, widen k m ks c.1)

  -- What holds of the map and the keys before the changes to come.
  pub record IsOrdered (m : List (String × V)) (ks : List String) (cs : List (Change V))
      : Type 0 where
    pub keyed : IsKeyed m
    pub distinct : AreDistinct ks
    pub covered : IsCovered m ks
    pub retired : AreRetired m ks cs

  pub total-in_map :
      (w : V → ℕ) (m : List (String × V)) (ks : List String) (cs : List (Change V))
      → IsOrdered m ks cs
      → total w (in_order m ks) ≡ total (value_weight w) m
  total-in_map w m ks cs h = total-in_order w m ks ∙ total-found w m ks h.keyed h.distinct h.covered
