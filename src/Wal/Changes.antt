-- ===== src/Wal/Changes.antt =====
-- What a log says, read as changes of entries under keys: which entries it leaves, seen from the changes
-- that come after each one. The replays of backend/queue/repo/walfile are held against this.
pub mod Found
pub mod Order
pub mod Replayed
use ryuk_dpq.Base.{◌≡◌, String, Bool, true, false, ◌||◌, List, [], ◌∷◌, if◌then◌else◌, str_eq}

pub data Change {ℓ} (V : Type ℓ) : Type ℓ where
  sets : String → V → Change V
  alters : String → (V → V) → Change V
  ends : String → Change V
  passes : Change V

module _ {ℓ} {V : Type ℓ} where
  -- The key is set again, or ended.
  unfoldable pub is_replaced : String → List (Change V) → Bool
  is_replaced k [] = false
  is_replaced k (sets j v ∷ cs) = str_eq j k || is_replaced k cs
  is_replaced k (alters j f ∷ cs) = is_replaced k cs
  is_replaced k (ends j ∷ cs) = str_eq j k || is_replaced k cs
  is_replaced k (passes ∷ cs) = is_replaced k cs

  -- The key is set.
  unfoldable pub is_set : String → List (Change V) → Bool
  is_set k [] = false
  is_set k (sets j v ∷ cs) = str_eq j k || is_set k cs
  is_set k (alters j f ∷ cs) = is_set k cs
  is_set k (ends j ∷ cs) = is_set k cs
  is_set k (passes ∷ cs) = is_set k cs

  -- What the alterations of the key make of the entry.
  unfoldable pub altered : String → List (Change V) → V → V
  altered k [] v = v
  altered k (sets j u ∷ cs) v = altered k cs v
  altered k (alters j f ∷ cs) v = altered k cs (if str_eq j k then f v else v)
  altered k (ends j ∷ cs) v = altered k cs v
  altered k (passes ∷ cs) v = altered k cs v

  -- Each entry that no later change replaces, as the later ones alter it.
  unfoldable pub left_by : List (Change V) → List V
  left_by [] = []
  left_by (sets k v ∷ cs) =
      let rest = left_by cs in if is_replaced k cs then rest else altered k cs v ∷ rest
  left_by (alters k f ∷ cs) = left_by cs
  left_by (ends k ∷ cs) = left_by cs
  left_by (passes ∷ cs) = left_by cs

  -- No key is set after it has ended.
  abbrev pub NeverReturns : List (Change V) → Type 0
  NeverReturns [] = Unit
  NeverReturns (ends k ∷ cs) = (is_set k cs ≡ false) × NeverReturns cs
  NeverReturns (c ∷ cs) = NeverReturns cs
