-- ===== src/Gateway/Cache.antt =====
-- backend/gateway/logic/cache-logic.go over backend/third_party/inmemorycache: the read-through cache of
-- the gateway, for the entries under one prefix. The cache may turn a write down, after which the key has
-- no entry, and may drop an entry at any time; an entry whose bytes do not parse is a case of its own.
pub mod Entries
use ryuk_dpq.Base.{String, Bool, true, false, Option, none, some, List, [], ◌∷◌, if◌then◌else◌}
use ryuk_dpq.Base.Dict.{lookup, put, delete}
use ryuk_dpq.Gateway.Routing.{Answer, answered, refused, Code, code_not_found}

-- An envelope with a value, or with the miss that was remembered.
pub data Entry (V : Type 0) : Type 0 where
  readable : V → Entry V
  missing : Entry V
  unreadable : Entry V

abbrev pub is_not_found : Code → Bool
is_not_found code_not_found = true
is_not_found _ = false

module _ {V : Type 0} where
  -- Set; `keep` is whether the write is admitted.
  unfoldable pub set_entry :
      Bool → String → Entry V → List (String × Entry V) → List (String × Entry V)
  set_entry true k e c = put k e c
  set_entry false k e c = delete k c

  -- The source was asked: what it gave is stored, and a miss is remembered.
  unfoldable pub after_source :
      Bool → String → Answer V → List (String × Entry V) → Answer V × List (String × Entry V)
  unfolding set_entry
  after_source keep k (answered v) c = (answered v, set_entry keep k (readable v) c)
  after_source keep k (refused code) c =
      (refused code, if is_not_found code then set_entry keep k missing c else c)

  unfoldable pub fetch_via_cache :
      Bool → List (String × Entry V) → String → Answer V → Answer V × List (String × Entry V)
  unfolding after_source
  fetch_via_cache keep c k source = elim (lookup k c) as (λ _. Answer V × List (String × Entry V)) [
    | none ↦ after_source keep k source c
    | some (readable v) ↦ (answered v, c)
    | some missing ↦ (refused code_not_found, c)
    | some unreadable ↦ after_source keep k source (delete k c)
  ]

  unfoldable pub read_cache : List (String × Entry V) → String → Option V
  read_cache c k = elim (lookup k c) as (λ _. Option V) [ some (readable v) ↦ some v | _ ↦ none ]

  unfoldable pub write_cache : Bool → List (String × Entry V) → String → V → List (String × Entry V)
  unfolding set_entry
  write_cache keep c k v = set_entry keep k (readable v) c

  unfoldable pub evict_cache : List (String × Entry V) → String → List (String × Entry V)
  evict_cache c k = delete k c
