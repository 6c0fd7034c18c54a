-- ===== src/Gateway/Admin/Creating.antt =====
-- CreateQueue and the dead-letter queues that are named in the table.
use ryuk_dpq.Base.{
  ℕ, zero, suc, ◌≡◌, refl, ap, inl, inr, String, Bool, true, false, not, Option, none, some, str_eq,
  eq_iff, Bool-cases, Option-cases, ◌&&◌,
}
use ryuk_dpq.Base.Dict.{lookup}
use ryuk_dpq.Slotting.{per_distributed_queue}
use ryuk_dpq.Gateway.Moves.{Call, done, failed, unsure}
use ryuk_dpq.Gateway.Owners.{Placed, Cluster, assign_owner}
use ryuk_dpq.Gateway.Routing.{
  Answer, answered, refused, Code, code_moved, code_exhausted, code_not_found, code_conflict,
  code_invalid, code_other,
}
use ryuk_dpq.Gateway.Cache.{readable, evict_cache, write_cache}
use ryuk_dpq.Gateway.Cache.Entries.{Gives, set_entry-Every, delete-Every}
use ryuk_dpq.Gateway.Admin.{
  Settings, Row, QueueConfig, Tables, Reads, no_owners, load_config, config, with_slot_owner, evict,
  dead_letter_code,
}
use ryuk_dpq.Gateway.Admin.Operations.{
  Creation, CreateOutcomes, check_dead_letter, insert_row, place_slots, same_settings,
  finish_create, place_new, after_insert, new_row, create_queue,
}
use ryuk_dpq.Gateway.Admin.Links.{
  row_settings, links, links-here, Stands, IsKnown, IsSound, load-Gives, config-Gives, with_row,
  with_row-IsSound,
}

module _ {F : Type 0} where
  pub evict-IsSound : (name : String) (t : Tables F) → IsSound t → IsSound (evict name t)
  unfolding evict_cache
  evict-IsSound name t v = record {
    linked = v.linked;
    known = delete-Every (IsKnown (links t)) name t.cache v.known;
  }

  pub slot_owner-IsSound :
      (name : String) (slot : ℕ) (id : String) (t : Tables F)
      → IsSound t
      → IsSound (with_slot_owner name slot id t)
  slot_owner-IsSound name slot id t v = record { linked = v.linked; known = v.known }

  -- What a read of a dead-letter queue lets pass is in the table.
  dead_letter_code-Stands :
      (creating : Bool) (l : String → Option (Settings F)) (d : String) (a : Answer (QueueConfig F))
      → Gives (IsKnown l) d a
      → dead_letter_code creating a ≡ none
      → Stands l d
  unfolding dead_letter_code
  dead_letter_code-Stands creating l d (answered c) g e = inr (c.row.settings, g)
  dead_letter_code-Stands creating l d (refused code_moved) g e = absurd cc
  dead_letter_code-Stands creating l d (refused code_exhausted) g e = absurd cc
  dead_letter_code-Stands creating l d (refused code_not_found) g e = absurd cc
  dead_letter_code-Stands creating l d (refused code_conflict) g e = absurd cc
  dead_letter_code-Stands creating l d (refused code_invalid) g e = absurd cc
  dead_letter_code-Stands creating l d (refused code_other) g e = absurd cc

  -- The check reads the table through the cache and changes none of its rows.
  pub record Checks (t : Tables F) (d : String) (r : Option Code × Tables F) : Type 0 where
    pub rows : r.1.queues ≡ t.queues
    pub sound : IsSound r.1
    pub passes : r.0 ≡ none → Stands (links t) d

  pub check_dead_letter-Checks :
      (creating : Bool) (o : Reads) (t : Tables F) (d : String)
      → IsSound t
      → Checks t d (check_dead_letter creating o t d)
  unfolding check_dead_letter config
  check_dead_letter-Checks creating o t d v = elim (Bool-cases (str_eq d "")) [
    | inl e ↦ rw (check_dead_letter, e) record { rows = refl; sound = v; passes = λ _. inl e }
    | inr e ↦
        let (g, w) = config-Gives o t d v in
        rw (check_dead_letter, e)
          record {
            rows = refl;
            sound = w;
            passes = λ p. dead_letter_code-Stands creating (links t) d (config o t d).0 g p;
          }
  ]

  -- The row that an insertion answers is the one in the table.
  abbrev Inserted : String → Answer (QueueConfig F × Bool) × Tables F → Type 0
  Inserted name (refused code, t) = IsSound t
  Inserted name (answered (cfg, created), t) = IsSound t × (links t name ≡ some cfg.row.settings)

  insert_row-Inserted :
      (call : Call) (name : String) (row : Row F) (t : Tables F)
      → IsSound t
      → Stands (links t) row.settings.dead_letter_queue
      → Inserted name (insert_row call name row t)
  unfolding insert_row
  insert_row-Inserted call name row t v stands = elim (Option-cases (lookup name t.queues)) [
    | inr (old, e) ↦ there call old e
    | inl e ↦ absent call e
  ]
    where
      there :
          (call : Call) (old : Row F)
          → lookup name t.queues ≡ some old
          → Inserted name (insert_row call name row t)
      there done old e = rw (insert_row, e) (v, ap row_settings e)
      there failed old e = rw (insert_row, e) v
      there unsure old e = rw (insert_row, e) v

      added : lookup name t.queues ≡ none → IsSound (with_row name row t)
      added e = with_row-IsSound name row t v stands (inl (ap row_settings e))

      absent :
          (call : Call) → lookup name t.queues ≡ none → Inserted name (insert_row call name row t)
      absent done e =
          rw (insert_row, e) (added e, links-here name row t name ((eq_iff name name).1 refl))
      absent failed e = rw (insert_row, e) v
      absent unsure e = rw (insert_row, e) (added e)

  place_slots-IsSound :
      (c : Cluster) (p : Placed) (name : String) (calls : ℕ → Call) (n slot : ℕ) (t : Tables F)
      → IsSound t
      → IsSound (place_slots c p name calls n slot t).1
  unfolding place_slots
  place_slots-IsSound c p name calls zero slot t v = v
  place_slots-IsSound c p name calls (suc n) slot t v =
      elim (Option-cases (assign_owner c p slot)) [
        | inl e ↦ rw (place_slots, e) v
        | inr (m, e) ↦
            let w = slot_owner-IsSound name slot m.id t v in
            let next =
              place_slots-IsSound c p name calls n (suc slot) (with_slot_owner name slot m.id t)
                w in
            rw (place_slots, e)
              (by_call (calls slot) (with_slot_owner name slot m.id t)
                (place_slots c p name calls n (suc slot) (with_slot_owner name slot m.id t)) t v w
                next)
      ]
    where
      by_call :
          (call : Call) (t1 : Tables F) (r : Bool × Tables F) (t : Tables F)
          → IsSound t
          → IsSound t1
          → IsSound r.1
          → IsSound
              (elim call as (λ _. Bool × Tables F) [
                | failed ↦ (false, t)
                | unsure ↦ (false, t1)
                | done ↦ r
              ]).1
      by_call failed t1 r t v w x = v
      by_call unsure t1 r t v w x = w
      by_call done t1 r t v w x = x

  module _ (same_float : F → F → Bool) where
    finish_create-IsSound :
        (keep : Bool) (r : Creation F) (created : Bool) (cfg : QueueConfig F) (t : Tables F)
        → IsSound t
        → links t r.name ≡ some cfg.row.settings
        → IsSound (finish_create same_float keep r created cfg t).1
    unfolding finish_create write_cache
    finish_create-IsSound keep r created cfg t v e =
        elim (Bool-cases
          (not created && not (same_settings same_float cfg.row.settings r.settings))) [
            | inl b ↦ rw (finish_create, b) v
            | inr b ↦
                rw (finish_create, b)
                  record {
                    linked = v.linked;
                    known =
                        set_entry-Every (IsKnown (links t)) keep r.name (readable cfg) t.cache e
                          v.known;
                  }
          ]

    -- After a read of the table.
    read_again-IsSound :
        (o : CreateOutcomes) (r : Creation F) (t : Tables F) (a : Answer (QueueConfig F))
        → IsSound t
        → Gives (IsKnown (links t)) r.name a
        → IsSound
            (elim a as (λ _. Answer Bool × Tables F) [
              | refused code ↦ (refused code_other, t)
              | answered cfg ↦ finish_create same_float o.keep r true cfg t
            ]).1
    read_again-IsSound o r t (refused code) v g = v
    read_again-IsSound o r t (answered cfg) v g = finish_create-IsSound o.keep r true cfg t v g

    place_new-IsSound :
        (c : Cluster) (o : CreateOutcomes) (r : Creation F) (t : Tables F)
        → IsSound t
        → IsSound (place_new same_float c o r t).1
    unfolding place_new
    place_new-IsSound c o r t v =
        let p : Placed = record {
          distributed = true;
          placement_width = r.settings.placement_width;
          owner = no_owners;
        } in
        let t1 = (place_slots c p r.name o.place per_distributed_queue 0 t).1 in
        let w = place_slots-IsSound c p r.name o.place per_distributed_queue 0 t v in
        elim (Bool-cases (place_slots c p r.name o.place per_distributed_queue 0 t).0) [
          | inr b ↦ rw (place_new, b) w
          | inl b ↦
              rw (place_new, b)
                (read_again-IsSound o r t1 (load_config o.reload t1 r.name) w
                  (load-Gives o.reload t1 r.name))
        ]

    after_insert-IsSound :
        (c : Cluster) (o : CreateOutcomes) (r : Creation F)
        (x : Answer (QueueConfig F × Bool) × Tables F)
        → Inserted r.name x
        → IsSound (after_insert same_float c o r x).1
    unfolding after_insert
    after_insert-IsSound c o r (refused code, t) v = v
    after_insert-IsSound c o r (answered (cfg, created), t) (v, e) =
        elim (Bool-cases (created && r.distributed)) [
          | inl b ↦ rw (after_insert, b) (place_new-IsSound c o r t v)
          | inr b ↦ rw (after_insert, b) (finish_create-IsSound o.keep r created cfg t v e)
        ]

    pub create_queue-IsSound :
        (c : Cluster) (o : CreateOutcomes) (r : Creation F) (t : Tables F)
        → IsSound t
        → IsSound (create_queue same_float c o r t).1
    unfolding create_queue
    create_queue-IsSound c o r t v =
        let ch = check_dead_letter-Checks true o.dead_letter t r.settings.dead_letter_queue v in
        let x = check_dead_letter true o.dead_letter t r.settings.dead_letter_queue in
        elim (Option-cases x.0) [
          | inr (e, p) ↦ rw (create_queue, p) ch.sound
          | inl p ↦
              let stands = ch.passes p in
              let here : Stands (links x.1) r.settings.dead_letter_queue = rw ch.rows stands in
              rw (create_queue, p)
                (after_insert-IsSound c o r (insert_row o.insert r.name (new_row c r) x.1)
                  (insert_row-Inserted o.insert r.name (new_row c r) x.1 ch.sound here))
        ]
