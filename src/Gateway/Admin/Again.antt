-- ===== src/Gateway/Admin/Again.antt =====
-- A queue that is created again.
use ryuk_dpq.Base.{◌≡◌, refl, ap, String, Bool, true, false, none, some, str_eq, eq_iff}
use ryuk_dpq.Base.Dict.{lookup, put, lookup-put}
use ryuk_dpq.Gateway.Moves.{Call, done}
use ryuk_dpq.Gateway.Owners.{Cluster}
use ryuk_dpq.Gateway.Routing.{answered}
use ryuk_dpq.Gateway.Cache.{readable, fetch_via_cache, write_cache}
use ryuk_dpq.Gateway.Admin.{Row, QueueConfig, Tables, Reads, no_owners, config}
use ryuk_dpq.Gateway.Admin.Operations.{
  Creation, CreateOutcomes, check_dead_letter, insert_row, after_insert, same_settings,
  finish_create, new_row, create_queue,
}

module _ {F : Type 0} (same_float : F → F → Bool) where
  unlettered :
      (o : Reads) (t : Tables F) (name : String)
      → str_eq name "" ≡ true
      → check_dead_letter true o t name ≡ (none, t)
  unfolding check_dead_letter
  unlettered o t name e = rw (check_dead_letter, e) refl

  inserted_again :
      (call : Call) (name : String) (row old : Row F) (t : Tables F)
      → lookup name t.queues ≡ some old
      → call ≡ done
      → insert_row call name row t
        ≡ (answered (record { row = old; slot_owners = no_owners }, false), t)
  unfolding insert_row
  inserted_again call name row old t e d = rw (insert_row, e, d) refl

  finished_again :
      (keep : Bool) (r : Creation F) (cfg : QueueConfig F) (t : Tables F)
      → same_settings same_float cfg.row.settings r.settings ≡ true
      → keep ≡ true
      → finish_create same_float keep r false cfg t
        ≡ (answered false, record t { cache = put r.name (readable cfg) t.cache })
  unfolding finish_create write_cache
  finished_again keep r cfg t e k = rw (finish_create, e, k) refl

  created_again :
      (c : Cluster) (o : CreateOutcomes) (r : Creation F) (t : Tables F) (old : Row F)
      → lookup r.name t.queues ≡ some old
      → same_settings same_float old.settings r.settings ≡ true
      → str_eq r.settings.dead_letter_queue "" ≡ true
      → o.insert ≡ done
      → o.keep ≡ true
      → create_queue same_float c o r t ≡ (
        answered false,
        record t {
          cache = put r.name (readable (record { row = old; slot_owners = no_owners })) t.cache;
        },
      )
  unfolding create_queue after_insert
  created_again c o r t old there same no_letters inserted kept =
      let checked = unlettered o.dead_letter t r.settings.dead_letter_queue no_letters in
      rw
        (
          create_queue,
          ap (λ x. x.0) checked,
          ap (λ x. x.1) checked,
          inserted_again o.insert r.name (new_row c r) old t there inserted,
          after_insert,
        )
        (finished_again o.keep r (record { row = old; slot_owners = no_owners }) t same kept)

  -- Where a queue is created again with the settings that it has, no dead-letter queue among them, and the
  -- database answers and the cache keeps what it is given: what is read of the queue then, however the
  -- tables answer, is its row without the owner of any slot, also where the queue is distributed.
  pub create_again_forgets_owners :
      (c : Cluster) (o : CreateOutcomes) (r : Creation F) (t : Tables F) (old : Row F)
      (reads : Reads)
      → lookup r.name t.queues ≡ some old
      → same_settings same_float old.settings r.settings ≡ true
      → str_eq r.settings.dead_letter_queue "" ≡ true
      → o.insert ≡ done
      → o.keep ≡ true
      → (config reads (create_queue same_float c o r t).1 r.name).0
        ≡ answered (record { row = old; slot_owners = no_owners })
  unfolding config fetch_via_cache
  create_again_forgets_owners c o r t old reads there same no_letters inserted kept =
      let cfg : QueueConfig F = record { row = old; slot_owners = no_owners } in
      let found : lookup r.name (put r.name (readable cfg) t.cache) ≡ some (readable cfg) =
        rw (lookup-put, (eq_iff r.name r.name).1 refl) refl in
      rw
        (
          created_again c o r t old there same no_letters inserted kept,
          config,
          fetch_via_cache,
          found,
        )
        refl
