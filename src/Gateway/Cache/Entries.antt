-- ===== src/Gateway/Cache/Entries.antt =====
-- What holds of every entry of the cache.
use ryuk_dpq.Base.{
  ◌≡◌, String, Bool, true, false, none, some, List, inl, inr, str_eq, eq_iff, Bool-cases,
  Option-cases,
}
use ryuk_dpq.Base.Dict.{lookup, put, delete, lookup-put, lookup-delete}
use ryuk_dpq.Gateway.Routing.{Answer, answered, refused}
use ryuk_dpq.Gateway.Cache.{
  Entry, readable, missing, unreadable, is_not_found, set_entry, after_source, fetch_via_cache,
}

module _ {V : Type 0} (P : String → Entry V → Type 0) where
  abbrev pub Every : List (String × Entry V) → Type 0
  Every c = (k : String) (e : Entry V) → lookup k c ≡ some e → P k e

  pub put-Every :
      (k : String) (e : Entry V) (c : List (String × Entry V)) → P k e → Every c → Every (put k e c)
  put-Every k e c p h j x at = elim (Bool-cases (str_eq k j)) [
    | inl y ↦
        let here : some e ≡ some x = rw (lookup-put, y) at at in
        let same : k ≡ j = (eq_iff k j).0 y in let it : e ≡ x = cc in rw (← same, ← it) p
    | inr n ↦ h j x (rw (lookup-put, n) at at)
  ]

  pub delete-Every : (k : String) (c : List (String × Entry V)) → Every c → Every (delete k c)
  delete-Every k c h j x at = elim (Bool-cases (str_eq k j)) [
    | inl y ↦ let gone : none ≡ some x = rw (lookup-delete, y) at at in absurd cc
    | inr n ↦ h j x (rw (lookup-delete, n) at at)
  ]

  pub set_entry-Every :
      (keep : Bool) (k : String) (e : Entry V) (c : List (String × Entry V))
      → P k e
      → Every c
      → Every (set_entry keep k e c)
  unfolding set_entry
  set_entry-Every true k e c p h = put-Every k e c p h
  set_entry-Every false k e c p h = delete-Every k c h

  -- What the source may give for a key.
  abbrev pub Gives : String → Answer V → Type 0
  Gives k (answered v) = P k (readable v)
  Gives k (refused code) = P k missing

  after_source-Every :
      (keep : Bool) (k : String) (source : Answer V) (c : List (String × Entry V))
      → Gives k source
      → Every c
      → Every (after_source keep k source c).1
  unfolding after_source
  after_source-Every keep k (answered v) c g h = set_entry-Every keep k (readable v) c g h
  after_source-Every keep k (refused code) c g h = elim (Bool-cases (is_not_found code)) [
    | inl e ↦ rw e (set_entry-Every keep k missing c g h)
    | inr e ↦ rw e h
  ]

  after_source-Gives :
      (keep : Bool) (k : String) (source : Answer V) (c : List (String × Entry V))
      → Gives k source
      → Gives k (after_source keep k source c).0
  unfolding after_source
  after_source-Gives keep k (answered v) c g = g
  after_source-Gives keep k (refused code) c g = g

  abbrev After : String → Answer V × List (String × Entry V) → Type 0
  After k r = Gives k r.0 × Every r.1

  found-Every :
      (keep : Bool) (k : String) (source : Answer V) (c : List (String × Entry V)) (x : Entry V)
      → lookup k c ≡ some x
      → Gives k source
      → Every c
      → After k (fetch_via_cache keep c k source)
  unfolding fetch_via_cache
  found-Every keep k source c (readable v) e g h = rw (fetch_via_cache, e) (h k (readable v) e, h)
  found-Every keep k source c missing e g h = rw (fetch_via_cache, e) (h k missing e, h)
  found-Every keep k source c unreadable e g h =
      rw (fetch_via_cache, e)
        (
          after_source-Gives keep k source (delete k c) g,
          after_source-Every keep k source (delete k c) g (delete-Every k c h),
        )

  -- What is read through the cache is what its entries and the source may say, and so are the entries
  -- then.
  pub fetch_via_cache-Every :
      (keep : Bool) (k : String) (source : Answer V) (c : List (String × Entry V))
      → Gives k source
      → Every c
      → Gives k (fetch_via_cache keep c k source).0 × Every (fetch_via_cache keep c k source).1
  unfolding fetch_via_cache
  fetch_via_cache-Every keep k source c g h = elim (Option-cases (lookup k c)) [
    | inl e ↦
        rw (fetch_via_cache, e)
          (after_source-Gives keep k source c g, after_source-Every keep k source c g h)
    | inr (x, e) ↦ found-Every keep k source c x e g h
  ]
