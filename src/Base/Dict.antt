-- ===== src/Base/Dict.antt =====
-- A Go map with string keys, as an association list with at most one entry for a key.
-- `put` replaces an entry where it stands or adds one at the end; `delete` removes every entry.
use Prim.Native.Nat.{ℕ, ◌+◌}
use Prim.Native.String.{String}
use mathlib.Core.Path.{◌≡◌, refl}
use mathlib.Core.Option.{Option, none, some}
use mathlib.Core.List.{List, [], ◌∷◌}
use native.Mathlib.Omega.{arith}
use text.Mathlib.Text.{◌==◌ as str_eq}
use text.Mathlib.TextEquality.{eq_iff}
use ryuk_dpq.Base.Tests.{if◌then◌else◌}
use ryuk_dpq.Base.Lists.{total}

module _ {ℓ} {V : Type ℓ} where
  unfoldable pub lookup : String → List (String × V) → Option V
  lookup k [] = none
  lookup k ((j, v) ∷ m) = if str_eq j k then some v else lookup k m

  unfoldable pub put : String → V → List (String × V) → List (String × V)
  put k v [] = (k, v) ∷ []
  put k v ((j, w) ∷ m) = if str_eq j k then (k, v) ∷ m else (j, w) ∷ put k v m

  unfoldable pub delete : String → List (String × V) → List (String × V)
  delete k [] = []
  delete k ((j, v) ∷ m) = let rest = delete k m in if str_eq j k then rest else (j, v) ∷ rest

  -- Every key stands once.
  abbrev pub IsKeyed : List (String × V) → Type ℓ
  IsKeyed [] = Unit
  IsKeyed ((j, v) ∷ m) = (lookup j m ≡ none) × IsKeyed m

  pub lookup-put :
      (k j : String) (v : V) (m : List (String × V))
      → lookup j (put k v m) ≡ (if str_eq k j then some v else lookup j m)
  unfolding lookup put
  lookup-put k j v [] = refl
  lookup-put k j v ((i, w) ∷ m) =
      ground (arith, eq_iff k j, eq_iff i k, eq_iff i j, lookup-put k j v m)

  pub lookup-delete :
      (k j : String) (m : List (String × V))
      → lookup j (delete k m) ≡ (if str_eq k j then none else lookup j m)
  unfolding lookup delete
  lookup-delete k j [] = ground arith
  lookup-delete k j ((i, w) ∷ m) =
      ground (arith, eq_iff k j, eq_iff i k, eq_iff i j, lookup-delete k j m)

  pub delete_absent : (k : String) (m : List (String × V)) → lookup k m ≡ none → delete k m ≡ m
  unfolding lookup delete
  delete_absent k [] h = refl
  delete_absent k ((i, w) ∷ m) h = ground (arith, delete_absent k m)

  pub put-IsKeyed : (k : String) (v : V) (m : List (String × V)) → IsKeyed m → IsKeyed (put k v m)
  unfolding lookup put
  put-IsKeyed k v [] h = (refl, tt)
  put-IsKeyed k v ((i, w) ∷ m) h =
      ground (arith, eq_iff i k, eq_iff k i, put-IsKeyed k v m h.1, lookup-put k i v m)

  pub delete-IsKeyed : (k : String) (m : List (String × V)) → IsKeyed m → IsKeyed (delete k m)
  unfolding lookup delete
  delete-IsKeyed k [] h = tt
  delete-IsKeyed k ((i, w) ∷ m) h = ground (arith, delete-IsKeyed k m h.1, lookup-delete k i m)

  -- The sum of a measure over the values, when a key is added or removed.
  pub total-put :
      (f : String × V → ℕ) (k : String) (v : V) (m : List (String × V))
      → lookup k m ≡ none
      → total f (put k v m) ≡ total f m + f (k, v)
  unfolding lookup put
  total-put f k v [] h = omega arith
  total-put f k v ((i, w) ∷ m) h = ground (arith, total-put f k v m)

  -- The sum of a measure over the values, when a key gets another value.
  pub total-put_over :
      (f : String × V → ℕ) (k : String) (old new : V) (m : List (String × V))
      → lookup k m ≡ some old
      → total f (put k new m) + f (k, old) ≡ total f m + f (k, new)
  unfolding lookup put
  total-put_over f k old new [] h = cc
  total-put_over f k old new ((j, x) ∷ m) h =
      ground (arith, eq_iff j k, total-put_over f k old new m)

  pub total-delete :
      (f : String × V → ℕ) (k : String) (v : V) (m : List (String × V))
      → IsKeyed m
      → lookup k m ≡ some v
      → total f m ≡ total f (delete k m) + f (k, v)
  unfolding lookup delete
  total-delete f k v [] u h = cc
  total-delete f k v ((i, w) ∷ m) u h =
      ground (arith, eq_iff i k, total-delete f k v m u.1, delete_absent k m)
