-- ===== src/Engine/Accounts/Groups.antt =====
-- Sums over the group map when one group of the store changes.
use ryuk_dpq.Base.{
  ℕ, ◌+◌, ◌<◌, ◌≡◌, ◌≢◌, refl, String, List, [], ◌∷◌, some, arith, ◌==◌, ==_iff, Bool-cases, inl,
  inr, update, total, All, str_eq, eq_iff,
}
use ryuk_dpq.Base.Dict.{lookup, put, delete, IsKeyed}
use ryuk_dpq.Engine.Deque.{all}
use ryuk_dpq.Engine.Message.{Message}
use ryuk_dpq.Engine.State.{Group}
use ryuk_dpq.Engine.Accounts.{group_total, IsNamed, IsBelow}

abbrev weigh : (Message → ℕ) → Group → ℕ
weigh w g = total w (all g.msgs)

-- A change at an address that the map does not list does not show.
pub total-update_unlisted :
    (w : Message → ℕ) (store : ℕ → Group) (a : ℕ) (g : Group) (gs : List (String × ℕ))
    → IsKeyed gs
    → All (IsNamed store) gs
    → lookup (store a).id gs ≢ some a
    → total (group_total w (update store a g)) gs ≡ total (group_total w store) gs
unfolding lookup
total-update_unlisted w store a g [] d h u = refl
total-update_unlisted w store a g ((k, b) ∷ gs) d h u = elim (Bool-cases (str_eq k (store a).id)) [
  | inl same ↦
      let e : k ≡ (store a).id = (eq_iff k (store a).id).0 same in
      let rest : lookup (store a).id gs ≢ some a = λ p. cc (d.0, p, e) in
      ground (arith, total-update_unlisted w store a g gs d.1 h.1 rest)
  | inr other ↦
      let rest : lookup (store a).id gs ≢ some a = λ p. u (rw other p) in
      ground (arith, h.0, eq_iff k (store a).id, total-update_unlisted w store a g gs d.1 h.1 rest)
]

-- A change at a listed address shows once.
pub total-update_listed :
    (w : Message → ℕ) (store : ℕ → Group) (a : ℕ) (g : Group) (gs : List (String × ℕ))
    → IsKeyed gs
    → All (IsNamed store) gs
    → lookup (store a).id gs ≡ some a
    → total (group_total w (update store a g)) gs + weigh w (store a)
      ≡ total (group_total w store) gs + weigh w g
unfolding lookup
total-update_listed w store a g [] d h u = cc
total-update_listed w store a g ((k, b) ∷ gs) d h u = elim (Bool-cases (a == b)) [
  | inl same ↦
      let e : a ≡ b = (==_iff a b).0 same in
      let absent : lookup (store a).id gs ≢ some a = λ p. ground arith in
      ground (arith, total-update_unlisted w store a g gs d.1 h.1 absent)
  | inr other ↦ ground (arith, eq_iff k (store a).id, total-update_listed w store a g gs d.1 h.1)
]

-- The names are kept by a change that keeps the group's own.
pub update-IsNamed :
    (store : ℕ → Group) (a : ℕ) (g : Group) (gs : List (String × ℕ))
    → g.id ≡ (store a).id
    → All (IsNamed store) gs
    → All (IsNamed (update store a g)) gs
update-IsNamed store a g [] e h = tt
update-IsNamed store a g ((k, b) ∷ gs) e h = ground (arith, update-IsNamed store a g gs e h.1)

pub IsBelow-suc : (n : ℕ) (gs : List (String × ℕ)) → All (IsBelow n) gs → All (IsBelow (n + 1)) gs
IsBelow-suc n [] h = tt
IsBelow-suc n ((k, b) ∷ gs) h = (omega arith, IsBelow-suc n gs h.1)

pub lookup-below :
    (n : ℕ) (k : String) (a : ℕ) (gs : List (String × ℕ))
    → All (IsBelow n) gs
    → lookup k gs ≡ some a
    → a < n
unfolding lookup
lookup-below n k a [] h e = cc
lookup-below n k a ((j, b) ∷ gs) h e = ground (arith, lookup-below n k a gs h.1)

pub lookup-named :
    (store : ℕ → Group) (k : String) (a : ℕ) (gs : List (String × ℕ))
    → All (IsNamed store) gs
    → lookup k gs ≡ some a
    → (store a).id ≡ k
unfolding lookup
lookup-named store k a [] h e = cc
lookup-named store k a ((j, b) ∷ gs) h e = ground (arith, eq_iff j k, lookup-named store k a gs h.1)

pub All-delete {ℓ} :
    {V : Type ℓ} (P : String × V → Type 0) (k : String) (gs : List (String × V))
    → All P gs
    → All P (delete k gs)
unfolding delete
All-delete P k [] h = tt
All-delete P k ((j, b) ∷ gs) h = ground (arith, All-delete P k gs h.1)

pub All-put {ℓ} :
    {V : Type ℓ} (P : String × V → Type 0) (k : String) (v : V) (gs : List (String × V))
    → P (k, v)
    → All P gs
    → All P (put k v gs)
unfolding put
All-put P k v [] p h = (p, tt)
All-put P k v ((j, b) ∷ gs) p h = ground (arith, All-put P k v gs p h.1)
