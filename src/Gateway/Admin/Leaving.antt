-- ===== src/Gateway/Admin/Leaving.antt =====
-- A queue that is being deleted, and that no queue names for its dead letters.
use ryuk_dpq.Base.{
  ◌≡◌, refl, sym, ap, ◌∙◌, inl, inr, String, Bool, true, false, not, Option, none, some, List, [],
  ◌∷◌, arith, if◌then◌else◌, str_eq, eq_iff, Bool-cases, Option-cases, ◌&&◌,
}
use ryuk_dpq.Base.Dict.{lookup, lookup-delete}
use ryuk_dpq.Gateway.Moves.{Call, done, failed, unsure}
use ryuk_dpq.Gateway.Owners.{Cluster, assign_owner}
use ryuk_dpq.Gateway.Cache.{evict_cache}
use ryuk_dpq.Gateway.Admin.{
  Settings, Row, QueueConfig, Tables, update_row, with_owner_node, with_slot_owner, evict,
  dead_letter_users,
}
use ryuk_dpq.Gateway.Admin.Operations.{placed_of, settle_owner}
use ryuk_dpq.Gateway.Admin.Links.{row_settings, links, links-here, links-there, IsSound}
use ryuk_dpq.Gateway.Admin.Creating.{evict-IsSound, slot_owner-IsSound}
use ryuk_dpq.Gateway.Admin.Changing.{update_row-there, update_row-IsSound}

module _ {F : Type 0} where
  -- Nobody else names the queue as its dead-letter queue.
  abbrev pub IsUnused : String → (String → Option (Settings F)) → Type 0
  IsUnused name l =
      (k : String) (s : Settings F)
      → l k ≡ some s
      → str_eq k name ≡ false
      → str_eq s.dead_letter_queue name ≡ false

  -- The settings under a name, at the head of the rows and behind it.
  pub dead_letter_users-IsUnused :
      (name : String) (q : List (String × Row F))
      → dead_letter_users name q ≡ []
      → IsUnused name (λ k. row_settings (lookup k q))
  unfolding dead_letter_users lookup
  dead_letter_users-IsUnused name [] h k s e n = absurd cc
  dead_letter_users-IsUnused name ((j, x) ∷ q) h k s e n =
      let rest = dead_letter_users-IsUnused name q in
      elim (Bool-cases (not (str_eq j name) && str_eq x.settings.dead_letter_queue name)) [
        | inl b ↦ let gone : j ∷ dead_letter_users name q ≡ [] = rw b at h in absurd (cc)
        | inr b ↦
            let others : dead_letter_users name q ≡ [] = rw b at h in
            elim (Bool-cases (str_eq j k)) [
              | inl y ↦
                  let it : some x.settings ≡ some s = rw y at e in
                  let same : x.settings ≡ s = cc in
                  let jk : j ≡ k = (eq_iff j k).0 y in
                  let jn : str_eq j name ≡ false = rw jk n in rw (← same) (ground arith)
              | inr m ↦
                  let at : row_settings (lookup k q) ≡ some s = rw m at e in rest others k s at n
            ]
      ]

  -- A queue that nobody uses for dead letters, and that the cache has no entry for.
  pub record IsLeaving (name : String) (t : Tables F) : Type 0 where
    pub sound : IsSound t
    pub unused : IsUnused name (links t)
    pub uncached : lookup name t.cache ≡ none

  pub links-update_row :
      (name : String) (f : Row F → Row F) (t : Tables F) (k : String)
      → ((row : Row F) → (f row).settings ≡ row.settings)
      → links (update_row name f t) k ≡ links t k
  unfolding update_row
  links-update_row name f t k same = elim (Option-cases (lookup name t.queues)) [
    | inl e ↦ rw (update_row, e) refl
    | inr (row, e) ↦ elim (Bool-cases (str_eq name k)) [
      | inl y ↦
          let here : links t k ≡ some row.settings =
            rw (← (eq_iff name k).0 y) (ap row_settings e) in
          rw (update_row-there name f t row e)
            (links-here name (f row) t k y ∙ ap some (same row) ∙ sym here)
      | inr n ↦ rw (update_row-there name f t row e) (links-there name (f row) t k n)
    ]
  ]

  update_row-cache :
      (name : String) (f : Row F → Row F) (t : Tables F) → (update_row name f t).cache ≡ t.cache
  unfolding update_row
  update_row-cache name f t = elim (Option-cases (lookup name t.queues)) [
    | inl e ↦ rw (update_row, e) refl
    | inr (row, e) ↦ rw (update_row, e) refl
  ]

  update_row-IsLeaving :
      (name : String) (f : Row F → Row F) (t : Tables F)
      → ((row : Row F) → (f row).settings ≡ row.settings)
      → IsLeaving name t
      → IsLeaving name (update_row name f t)
  update_row-IsLeaving name f t same v = record {
    sound = update_row-IsSound name f t same v.sound;
    unused = λ k s e n. v.unused k s (sym (links-update_row name f t k same) ∙ e) n;
    uncached = ap (lookup name) (update_row-cache name f t) ∙ v.uncached;
  }

  pub evict-IsLeaving :
      (name : String) (t : Tables F)
      → IsSound t
      → IsUnused name (links t)
      → IsLeaving name (evict name t)
  unfolding evict_cache
  evict-IsLeaving name t v u = record {
    sound = evict-IsSound name t v;
    unused = u;
    uncached = rw (lookup-delete, (eq_iff name name).1 refl) refl;
  }

  written-IsLeaving :
      (distributed : Bool) (name id : String) (t : Tables F)
      → IsLeaving name t
      → IsLeaving name (
          if distributed
          then with_slot_owner name 0 id t
          else update_row name (with_owner_node id) t)
  written-IsLeaving true name id t v = record {
    sound = slot_owner-IsSound name 0 id t v.sound;
    unused = v.unused;
    uncached = v.uncached;
  }
  written-IsLeaving false name id t v =
      update_row-IsLeaving name (with_owner_node id) t (λ row. refl) v

  pub settle_owner-IsLeaving :
      (c : Cluster) (call : Call) (name : String) (cfg : QueueConfig F) (t : Tables F)
      → IsLeaving name t
      → IsLeaving name (settle_owner c call name cfg t)
  unfolding settle_owner
  settle_owner-IsLeaving c call name cfg t v =
      elim (Bool-cases (str_eq ((placed_of cfg).owner 0) "")) [
        | inr b ↦ rw (settle_owner, b) v
        | inl b ↦ elim (Option-cases (assign_owner c (placed_of cfg) 0)) [
          | inl e ↦ rw (settle_owner, b, e) v
          | inr (m, e) ↦
              rw (settle_owner, b, e)
                (by_call call _ (written-IsLeaving cfg.row.distributed name m.id t v))
        ]
      ]
    where
      by_call :
          (call : Call) (w : Tables F)
          → IsLeaving name w
          → IsLeaving name
              (elim call as (λ _. Tables F) [ failed ↦ t | unsure ↦ w | done ↦ evict name w ])
      by_call failed w x = v
      by_call unsure w x = x
      by_call done w x = evict-IsLeaving name w x.sound x.unused
