-- ===== src/Gateway/Admin/Links.antt =====
-- Dead-letter queues that are there: what the rows and the cache say of the settings of a queue.
use ryuk_dpq.Base.{
  ◌≡◌, refl, sym, ap, ◌∙◌, ◌⊎◌, inl, inr, String, true, false, Option, none, some, str_eq, eq_iff,
  Bool-cases, Option-cases, subst,
}
use ryuk_dpq.Base.Dict.{lookup, put, delete, lookup-put, lookup-delete}
use ryuk_dpq.Gateway.Cache.{Entry, readable, missing, unreadable, evict_cache}
use ryuk_dpq.Gateway.Cache.Entries.{Every, Gives, fetch_via_cache-Every}
use ryuk_dpq.Gateway.Admin.{Settings, Row, QueueConfig, Tables, Reads, load_config, config}

module _ {F : Type 0} where
  -- The settings that the rows have for a name.
  abbrev pub row_settings : Option (Row F) → Option (Settings F)
  row_settings none = none
  row_settings (some r) = some r.settings

  abbrev pub links : Tables F → String → Option (Settings F)
  links t k = row_settings (lookup k t.queues)

  -- A dead-letter queue that a name stands for is there.
  abbrev pub Stands : (String → Option (Settings F)) → String → Type 0
  Stands l d = (str_eq d "" ≡ true) ⊎ ((s : Settings F) × (l d ≡ some s))

  abbrev pub AreLinked : (String → Option (Settings F)) → Type 0
  AreLinked l = (k : String) (s : Settings F) → l k ≡ some s → Stands l s.dead_letter_queue

  -- What the cache has of a queue has the settings of its row.
  abbrev pub IsKnownAs : Option (Settings F) → Entry (QueueConfig F) → Type 0
  IsKnownAs o (readable c) = o ≡ some c.row.settings
  IsKnownAs o missing = Unit
  IsKnownAs o unreadable = Unit

  abbrev pub IsKnown : (String → Option (Settings F)) → String → Entry (QueueConfig F) → Type 0
  IsKnown l k x = IsKnownAs (l k) x

  pub record IsSound (t : Tables F) : Type 0 where
    pub linked : AreLinked (links t)
    pub known : Every (IsKnown (links t)) t.cache

  pub load-Gives :
      (o : Reads) (t : Tables F) (name : String)
      → Gives (IsKnown (links t)) name (load_config o t name)
  unfolding load_config
  load-Gives o t name = elim (Bool-cases o.row) [
    | inr e ↦ rw (load_config, e) tt
    | inl e ↦ elim (Option-cases (lookup name t.queues)) [
      | inl f ↦ rw (load_config, e, f) tt
      | inr (row, f) ↦ elim (Bool-cases row.distributed) [
        | inr g ↦ rw (load_config, e, f, g) (ap row_settings f)
        | inl g ↦ elim (Bool-cases o.owners) [
          | inr h ↦ rw (load_config, e, f, g, h) tt
          | inl h ↦ rw (load_config, e, f, g, h) (ap row_settings f)
        ]
      ]
    ]
  ]

  pub config-Gives :
      (o : Reads) (t : Tables F) (name : String)
      → IsSound t
      → Gives (IsKnown (links t)) name (config o t name).0 × IsSound (config o t name).1
  unfolding config
  config-Gives o t name v =
      let (g, h) =
        fetch_via_cache-Every (IsKnown (links t)) o.keep name (load_config o t name) t.cache
          (load-Gives o t name) v.known in
      (g, record { linked = v.linked; known = h })

  abbrev pub with_row : String → Row F → Tables F → Tables F
  with_row name row t = record t { queues = put name row t.queues }

  pub links-here :
      (name : String) (row : Row F) (t : Tables F) (k : String)
      → str_eq name k ≡ true
      → links (with_row name row t) k ≡ some row.settings
  links-here name row t k e = rw (lookup-put, e) refl

  pub links-there :
      (name : String) (row : Row F) (t : Tables F) (k : String)
      → str_eq name k ≡ false
      → links (with_row name row t) k ≡ links t k
  links-there name row t k e = rw (lookup-put, e) refl

  -- More is said of the queues, and nothing is taken back.
  abbrev Extends : (String → Option (Settings F)) → (String → Option (Settings F)) → Type 0
  Extends l m = (k : String) (s : Settings F) → l k ≡ some s → m k ≡ some s

  Extends-IsKnown :
      (l m : String → Option (Settings F)) (k : String) (x : Entry (QueueConfig F))
      → Extends l m
      → IsKnown l k x
      → IsKnown m k x
  Extends-IsKnown l m k (readable c) h e = h k c.row.settings e
  Extends-IsKnown l m k missing h e = tt
  Extends-IsKnown l m k unreadable h e = tt

  -- A name that stands for a queue does so after a row is written.
  with_row-Stands :
      (name : String) (row : Row F) (t : Tables F) (d : String)
      → Stands (links t) d
      → Stands (links (with_row name row t)) d
  with_row-Stands name row t d (inl e) = inl e
  with_row-Stands name row t d (inr (s, e)) = elim (Bool-cases (str_eq name d)) [
    | inl y ↦ inr (row.settings, links-here name row t d y)
    | inr n ↦ inr (s, links-there name row t d n ∙ e)
  ]

  with_row-AreLinked :
      (name : String) (row : Row F) (t : Tables F)
      → AreLinked (links t)
      → Stands (links t) row.settings.dead_letter_queue
      → AreLinked (links (with_row name row t))
  with_row-AreLinked name row t v stands k s e = elim (Bool-cases (str_eq name k)) [
    | inl y ↦
        let it : some row.settings ≡ some s = sym (links-here name row t k y) ∙ e in
        let same : row.settings ≡ s = cc in
        rw (← same) (with_row-Stands name row t row.settings.dead_letter_queue stands)
    | inr n ↦
        with_row-Stands name row t s.dead_letter_queue
          (v k s (sym (links-there name row t k n) ∙ e))
  ]

  new_or_same :
      (name : String) (row : Row F) (t : Tables F)
      → (links t name ≡ none) ⊎ (links t name ≡ some row.settings)
      → Extends (links t) (links (with_row name row t))
  new_or_same name row t old k s e = elim (Bool-cases (str_eq name k)) [
    | inr n ↦ links-there name row t k n ∙ e
    | inl y ↦ links-here name row t k y ∙ here (rw (← (eq_iff name k).0 y) at e) old
  ]
    where
      here :
          links t name ≡ some s
          → (links t name ≡ none) ⊎ (links t name ≡ some row.settings)
          → some row.settings ≡ some s
      here g (inl none_there) = let gone : none ≡ some s = sym none_there ∙ g in absurd (cc)
      here g (inr same) = sym same ∙ g

  -- A row is written whose dead-letter queue is there, and which keeps the settings or is new.
  pub with_row-IsSound :
      (name : String) (row : Row F) (t : Tables F)
      → IsSound t
      → Stands (links t) row.settings.dead_letter_queue
      → (links t name ≡ none) ⊎ (links t name ≡ some row.settings)
      → IsSound (with_row name row t)
  with_row-IsSound name row t v stands old = record {
    linked = with_row-AreLinked name row t v.linked stands;
    known = λ k x e. Extends-IsKnown _ _ k x (new_or_same name row t old) (v.known k x e);
  }

  -- Settings are written whose dead-letter queue is there, and the entry goes.
  pub with_row-evict-IsSound :
      (name : String) (row : Row F) (t : Tables F)
      → IsSound t
      → Stands (links t) row.settings.dead_letter_queue
      → IsSound (record (with_row name row t) { cache = evict_cache t.cache name })
  unfolding evict_cache
  with_row-evict-IsSound name row t v stands = record {
    linked = with_row-AreLinked name row t v.linked stands;
    known = known;
  }
    where
      known : Every (IsKnown (links (with_row name row t))) (delete name t.cache)
      known k x e = elim (Bool-cases (str_eq name k)) [
        | inl y ↦ let gone : none ≡ some x = rw (lookup-delete, y) at e in absurd (cc)
        | inr n ↦
            let at : lookup k t.cache ≡ some x = rw (lookup-delete, n) at e in
            subst (λ o. IsKnownAs o x) (sym (links-there name row t k n)) (v.known k x at)
      ]
