-- ===== src/Wal/Changes/Replayed.antt =====
-- Entries in a map with the order of their keys, as a replay keeps them: what is found at the end is what
-- the changes leave.
use ryuk_dpq.Base.{
  ℕ, ◌+◌, ◌≡◌, refl, sym, ap, ◌∙◌, String, Bool, ◌||◌, Option, none, some, List, [], ◌∷◌, ◌++◌,
  if◌then◌else◌, str_eq, eq_iff, total, arith, inl, inr, Bool-cases,
}
use ryuk_dpq.Base.Dict.{lookup, put, delete, IsKeyed, put-IsKeyed, delete-IsKeyed}
use ryuk_dpq.Wal.Changes.{Change, sets, alters, ends, passes, is_replaced, altered, left_by}

none_ne : {A : Type 0} {a : A} → none ≡ some a → ⊥
none_ne h = cc

str_eq_sym : (j k : String) → str_eq j k ≡ str_eq k j
str_eq_sym j k = grind (arith, eq_iff j k, eq_iff k j)

module _ {V : Type 0} where
  -- `found` is what is under the key.
  unfoldable pub alter : String → (V → V) → Option V → List (String × V) → List (String × V)
  alter k f none m = m
  alter k f (some v) m = put k (f v) m

  unfoldable pub change : List (String × V) → Change V → List (String × V)
  unfolding alter
  change m (sets k v) = put k v m
  change m (alters k f) = alter k f (lookup k m) m
  change m (ends k) = delete k m
  change m passes = m

  unfoldable pub change_all : List (String × V) → List (Change V) → List (String × V)
  unfolding change
  change_all m [] = m
  change_all m (c ∷ cs) = change_all (change m c) cs

  -- The keys in the order in which they were first met, or met again after an end.
  unfoldable pub meet : List (String × V) → List String → Change V → List String
  meet m ks (sets k v) = elim (lookup k m) [ none ↦ ks ++ k ∷ [] | some u ↦ ks ]
  meet m ks (alters k f) = ks
  meet m ks (ends k) = ks
  meet m ks passes = ks

  unfoldable pub meet_all : List (String × V) → List String → List (Change V) → List String
  unfolding meet change
  meet_all m ks [] = ks
  meet_all m ks (c ∷ cs) = meet_all (change m c) (meet m ks c) cs

  abbrev without : String → (String × V → ℕ) → String × V → ℕ
  without k f e = if str_eq e.0 k then 0 else f e

  total-ext :
      (f g : String × V → ℕ) (m : List (String × V))
      → ((e : String × V) → f e ≡ g e)
      → total f m ≡ total g m
  total-ext f g [] h = refl
  total-ext f g (e ∷ m) h = omega (arith, h e, total-ext f g m h)

  total-absent :
      (k : String) (f : String × V → ℕ) (m : List (String × V))
      → lookup k m ≡ none
      → total (without k f) m ≡ total f m
  unfolding lookup
  total-absent k f [] h = refl
  total-absent k f ((j, x) ∷ m) h = ground (arith, h, total-absent k f m)

  total-present :
      (k : String) (v : V) (f : String × V → ℕ) (m : List (String × V))
      → IsKeyed m
      → lookup k m ≡ some v
      → total f m ≡ total (without k f) m + f (k, v)
  unfolding lookup
  total-present k v f [] u h = absurd (none_ne h)
  total-present k v f ((j, x) ∷ m) u h = elim (Bool-cases (str_eq j k)) [
    | inl y ↦
        let same : j ≡ k = (eq_iff j k).0 y in
        let here : some x ≡ some v = rw y at h in
        let value : x ≡ v = some_eq here in
        rw (y, same, value)
          (omega (arith, total-absent k f m (ap (λ i. lookup i m) (sym same) ∙ u.0)))
    | inr n ↦ rw n (omega (arith, total-present k v f m u.1 (rw n at h)))
  ]
    where
      some_eq : {A : Type 0} {a b : A} → some a ≡ some b → a ≡ b
      some_eq h = cc

  total-put_masked :
      (k : String) (v : V) (f : String × V → ℕ) (m : List (String × V))
      → IsKeyed m
      → total f (put k v m) ≡ total (without k f) m + f (k, v)
  unfolding put lookup
  total-put_masked k v f [] u = omega arith
  total-put_masked k v f ((j, x) ∷ m) u = elim (Bool-cases (str_eq j k)) [
    | inl y ↦
        let same : j ≡ k = (eq_iff j k).0 y in
        rw (put, y) (omega (arith, total-absent k f m (ap (λ i. lookup i m) (sym same) ∙ u.0)))
    | inr n ↦ rw (put, n) (omega (arith, total-put_masked k v f m u.1))
  ]

  total-delete_masked :
      (k : String) (f : String × V → ℕ) (m : List (String × V))
      → total f (delete k m) ≡ total (without k f) m
  unfolding delete
  total-delete_masked k f [] = refl
  total-delete_masked k f ((j, x) ∷ m) = ground (arith, total-delete_masked k f m)

  -- What is left of an entry by the changes to come.
  abbrev pub rest_weight : (V → ℕ) → List (Change V) → String × V → ℕ
  rest_weight w cs e = if is_replaced e.0 cs then 0 else w (altered e.0 cs e.1)

  abbrev pub value_weight : (V → ℕ) → String × V → ℕ
  value_weight w e = w e.1

  alter-IsKeyed :
      (k : String) (f : V → V) (o : Option V) (m : List (String × V))
      → IsKeyed m
      → IsKeyed (alter k f o m)
  unfolding alter
  alter-IsKeyed k f none m u = u
  alter-IsKeyed k f (some v) m u = put-IsKeyed k (f v) m u

  pub change-IsKeyed : (c : Change V) (m : List (String × V)) → IsKeyed m → IsKeyed (change m c)
  unfolding change
  change-IsKeyed (sets k v) m u = put-IsKeyed k v m u
  change-IsKeyed (alters k f) m u = alter-IsKeyed k f (lookup k m) m u
  change-IsKeyed (ends k) m u = delete-IsKeyed k m u
  change-IsKeyed passes m u = u

  replaced_weight :
      (w : V → ℕ) (k : String) (b : String → Bool) (g : String × V → ℕ) (e : String × V)
      → without k (λ e. if b e.0 then 0 else g e) e ≡ (if str_eq k e.0 || b e.0 then 0 else g e)
  replaced_weight w k b g e = ground (arith, str_eq_sym k e.0)

  -- An entry that is altered weighs what the alteration makes of it.
  total-alter :
      (w : V → ℕ) (k : String) (f : V → V) (cs : List (Change V)) (o : Option V)
      (m : List (String × V))
      → IsKeyed m
      → lookup k m ≡ o
      → total (rest_weight w cs) (alter k f o m) ≡ total (rest_weight w (alters k f ∷ cs)) m
  unfolding alter is_replaced altered
  total-alter w k f cs o m u e = go o e
    where
      g : String × V → ℕ
      g = rest_weight w cs

      h : String × V → ℕ
      h = rest_weight w (alters k f ∷ cs)

      same_elsewhere : (x : String × V) → without k g x ≡ without k h x
      same_elsewhere x = ground (arith, str_eq_sym k x.0)

      same_here : (v : V) → h (k, v) ≡ g (k, f v)
      same_here v = ground (arith, eq_iff k k)

      go : (o : Option V) → lookup k m ≡ o → total g (alter k f o m) ≡ total h m
      go none e =
          sym (total-absent k g m e)
          ∙ total-ext (without k g) (without k h) m same_elsewhere
          ∙ total-absent k h m e
      go (some v) e = omega (
        arith,
        total-put_masked k (f v) g m u,
        total-present k v h m u e,
        total-ext (without k g) (without k h) m same_elsewhere,
        same_here v,
      )

  pub total-change_all :
      (w : V → ℕ) (cs : List (Change V)) (m : List (String × V))
      → IsKeyed m
      → total (value_weight w) (change_all m cs) ≡ total (rest_weight w cs) m + total w (left_by cs)
  unfolding change_all change is_replaced altered left_by
  total-change_all w [] m u = omega arith
  total-change_all w (sets k v ∷ cs) m u =
      let next = total-change_all w cs (put k v m) (put-IsKeyed k v m u) in
      let split = total-put_masked k v (rest_weight w cs) m u in
      let ext =
        total-ext (without k (rest_weight w cs)) (rest_weight w (sets k v ∷ cs)) m
          (λ e. replaced_weight w k (λ i. is_replaced i cs) (λ e. w (altered e.0 cs e.1)) e) in
      ground (arith, next, split, ext)
  total-change_all w (alters k f ∷ cs) m u = omega (
    arith,
    total-change_all w cs (alter k f (lookup k m) m) (alter-IsKeyed k f (lookup k m) m u),
    total-alter w k f cs (lookup k m) m u refl,
  )
  total-change_all w (ends k ∷ cs) m u =
      let next = total-change_all w cs (delete k m) (delete-IsKeyed k m u) in
      let split = total-delete_masked k (rest_weight w cs) m in
      let ext =
        total-ext (without k (rest_weight w cs)) (rest_weight w (ends k ∷ cs)) m
          (λ e. replaced_weight w k (λ i. is_replaced i cs) (λ e. w (altered e.0 cs e.1)) e) in
      omega (arith, next, split, ext)
  total-change_all w (passes ∷ cs) m u = total-change_all w cs m u
