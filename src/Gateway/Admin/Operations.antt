-- ===== src/Gateway/Admin/Operations.antt =====
-- CreateQueue and DeleteQueue of queue-admin-logic.go and UpdateQueue of queue-settings-logic.go, with
-- what each call of the database comes to as an argument. What a request was checked for before is not
-- checked here.
use ryuk_dpq.Base.{
  ℕ, zero, suc, String, Bool, true, false, not, ◌&&◌, Option, none, some, ◌==◌, if◌then◌else◌,
  str_eq, length,
}
use ryuk_dpq.Base.Dict.{lookup, put, delete}
use ryuk_dpq.Slotting.{per_distributed_queue}
use ryuk_dpq.Placement.{Member}
use ryuk_dpq.Gateway.Moves.{Call, done, failed, unsure}
use ryuk_dpq.Gateway.Owners.{Placed, Cluster, assign_owner, owner_addr}
use ryuk_dpq.Gateway.Routing.{
  Answer, answered, refused, Code, code_conflict, code_invalid, code_other,
}
use ryuk_dpq.Gateway.Cache.{write_cache}
use ryuk_dpq.Gateway.Admin.{
  active, deleting, is_deleting, Settings, same_int, same_flag, Row, QueueConfig, Tables, Reads,
  no_owners, load_config, config, update_row, with_state, with_settings, with_owner_node,
  with_slot_owner, evict, dead_letter_users, dead_letter_code,
}

pub record Creation (F : Type 0) : Type 0 where
  pub name : String
  pub settings : Settings F
  pub distributed : Bool

pub record CreateOutcomes : Type 0 where
  pub dead_letter : Reads
  pub insert : Call
  pub place : ℕ → Call
  pub reload : Reads
  pub keep : Bool

pub record UpdateOutcomes : Type 0 where
  pub own : Reads
  pub dead_letter : Reads
  pub update : Call

pub record DeleteOutcomes : Type 0 where
  pub own : Reads
  pub list : Bool
  pub mark : Call
  pub owner : Call
  pub drop_slots : Call
  pub remove : Call

-- The address that is told to drop the queue, if one is.
abbrev pub drop_at : Answer String → Option String
drop_at (refused code) = none
drop_at (answered addr) = if str_eq addr "" then none else some addr

module _ {F : Type 0} where
  unfoldable pub check_dead_letter : Bool → Reads → Tables F → String → Option Code × Tables F
  check_dead_letter creating o t name =
      let (a, t1) = config o t name in
      if str_eq name "" then (none, t) else (dead_letter_code creating a, t1)

  -- INSERT, which leaves a row that is there, and the row that is there then.
  unfoldable pub insert_row :
      Call → String → Row F → Tables F → Answer (QueueConfig F × Bool) × Tables F
  insert_row call name row t =
      let t1 = record t { queues = put name row t.queues } in
      elim (lookup name t.queues) as (λ _. Answer (QueueConfig F × Bool) × Tables F) [
        | some old ↦ elim call as (λ _. Answer (QueueConfig F × Bool) × Tables F) [
          | done ↦ (answered (record { row = old; slot_owners = no_owners }, false), t)
          | failed ↦ (refused code_other, t)
          | unsure ↦ (refused code_other, t)
        ]
        | none ↦ elim call as (λ _. Answer (QueueConfig F × Bool) × Tables F) [
          | done ↦ (answered (record { row = row; slot_owners = no_owners }, true), t1)
          | failed ↦ (refused code_other, t)
          | unsure ↦ (refused code_other, t1)
        ]
      ]

  abbrev pub placed_of : QueueConfig F → Placed
  placed_of c = record {
    distributed = c.row.distributed;
    placement_width = c.row.settings.placement_width;
    owner = if c.row.distributed then c.slot_owners else λ _. c.row.owner_node;
  }

  -- The slots from `slot` on, `n` of them, while an owner is found; false where a write failed.
  unfoldable pub place_slots :
      Cluster → Placed → String → (ℕ → Call) → ℕ → ℕ → Tables F → Bool × Tables F
  place_slots c p name calls zero slot t = (true, t)
  place_slots c p name calls (suc n) slot t = elim (assign_owner c p slot) [
    | none ↦ (true, t)
    | some m ↦ elim (calls slot) as (λ _. Bool × Tables F) [
      | failed ↦ (false, t)
      | unsure ↦ (false, with_slot_owner name slot m.id t)
      | done ↦ place_slots c p name calls n (suc slot) (with_slot_owner name slot m.id t)
    ]
  ]

  abbrev pub first_owner_node : Cluster → Creation F → String
  first_owner_node c r =
      let p : Placed = record {
        distributed = false;
        placement_width = r.settings.placement_width;
        owner = no_owners;
      } in
      if not r.distributed
      then elim (assign_owner c p 0) as (λ _. String) [ none ↦ "" | some m ↦ m.id ]
      else ""

  abbrev pub new_row : Cluster → Creation F → Row F
  new_row c r = record {
    settings = r.settings;
    distributed = r.distributed;
    state = active;
    owner_node = first_owner_node c r;
    generation = 1;
  }

  module _ (same_float : F → F → Bool) where
    unfoldable pub same_settings : Settings F → Settings F → Bool
    same_settings a b =
        same_int a.visibility_timeout b.visibility_timeout
        && a.max_retries == b.max_retries
        && same_int a.default_ttl b.default_ttl
        && same_int a.starvation_threshold b.starvation_threshold
        && same_float a.starvation_reserve b.starvation_reserve
        && same_flag a.starvation_avoidance_enabled b.starvation_avoidance_enabled
        && same_int a.max_depth b.max_depth
        && str_eq a.dead_letter_queue b.dead_letter_queue
        && same_int a.placement_width b.placement_width

    -- The end of CreateQueue, with the configuration that it has read.
    unfoldable pub finish_create :
        Bool → Creation F → Bool → QueueConfig F → Tables F → Answer Bool × Tables F
    unfolding same_settings
    finish_create keep r created cfg t =
        if not created && not (same_settings cfg.row.settings r.settings)
        then (refused code_conflict, t)
        else (answered created, record t { cache = write_cache keep t.cache r.name cfg })

    -- A distributed queue that is new is placed, a slot at a time, and read again.
    unfoldable pub place_new :
        Cluster → CreateOutcomes → Creation F → Tables F → Answer Bool × Tables F
    unfolding place_slots finish_create load_config
    place_new c o r t =
        let p : Placed = record {
          distributed = true;
          placement_width = r.settings.placement_width;
          owner = no_owners;
        } in
        let (placed, t1) = place_slots c p r.name o.place per_distributed_queue 0 t in
        let reloaded : Answer Bool × Tables F = elim (load_config o.reload t1 r.name) [
          | refused code ↦ (refused code_other, t1)
          | answered cfg ↦ finish_create o.keep r true cfg t1
        ] in
        if not placed then (refused code_other, t1) else reloaded

    unfoldable pub after_insert :
        Cluster
        → CreateOutcomes
        → Creation F
        → Answer (QueueConfig F × Bool) × Tables F
        → Answer Bool × Tables F
    after_insert c o r (refused code, t) = (refused code_other, t)
    after_insert c o r (answered (cfg, created), t) =
        if created && r.distributed then place_new c o r t else finish_create o.keep r created cfg t

    unfoldable pub create_queue :
        Cluster → CreateOutcomes → Creation F → Tables F → Answer Bool × Tables F
    create_queue c o r t =
        let (code, t1) = check_dead_letter true o.dead_letter t r.settings.dead_letter_queue in
        elim code as (λ _. Answer Bool × Tables F) [
          | some e ↦ (refused e, t1)
          | none ↦ after_insert c o r (insert_row o.insert r.name (new_row c r) t1)
        ]

  -- The settings are written; the entry goes with a write that is answered.
  unfoldable pub write_settings : Call → String → Settings F → Tables F → Answer Unit × Tables F
  write_settings call name s t =
      let t1 = update_row name (with_settings s) t in
      elim (lookup name t.queues) as (λ _. Answer Unit × Tables F) [
        | none ↦ (refused code_other, t)
        | some row ↦ elim call as (λ _. Answer Unit × Tables F) [
          | failed ↦ (refused code_other, t)
          | unsure ↦ (refused code_other, t1)
          | done ↦ (answered tt, evict name t1)
        ]
      ]

  -- The placement width is not tunable.
  abbrev pub kept_width : QueueConfig F → Settings F → Settings F
  kept_width cfg s = record s { placement_width = cfg.row.settings.placement_width }

  -- UpdateQueue with the configuration that it has read.
  unfoldable pub update_known :
      UpdateOutcomes → String → Settings F → QueueConfig F → Tables F → Answer Unit × Tables F
  unfolding check_dead_letter write_settings
  update_known o name s cfg t =
      let (code, t1) = check_dead_letter false o.dead_letter t s.dead_letter_queue in
      let checked : Answer Unit × Tables F = elim code [
        | some e ↦ (refused e, t1)
        | none ↦ write_settings o.update name (kept_width cfg s) t1
      ] in
      if is_deleting cfg.row.state
      then (refused code_invalid, t)
      else if str_eq s.dead_letter_queue cfg.row.settings.dead_letter_queue
      then write_settings o.update name (kept_width cfg s) t
      else checked

  unfoldable pub update_queue :
      UpdateOutcomes → String → Settings F → Tables F → Answer Unit × Tables F
  unfolding update_known config
  update_queue o name s t =
      let (a, t1) = config o.own t name in
      elim a as (λ _. Answer Unit × Tables F) [
        | refused e ↦ (refused e, t1)
        | answered cfg ↦ update_known o name s cfg t1
      ]

  -- The owner of slot 0, which is written down first where there is none, and the row is then evicted.
  unfoldable pub settle_owner : Cluster → Call → String → QueueConfig F → Tables F → Tables F
  settle_owner c call name cfg t =
      let written : Member → Tables F = λ m.
        if cfg.row.distributed
        then with_slot_owner name 0 m.id t
        else update_row name (with_owner_node m.id) t in
      let first : Tables F = elim (assign_owner c (placed_of cfg) 0) [
        | none ↦ t
        | some m ↦ elim call as (λ _. Tables F) [
          | failed ↦ t
          | unsure ↦ written m
          | done ↦ evict name (written m)
        ]
      ] in
      if str_eq ((placed_of cfg).owner 0) "" then first else t

  unfoldable pub remove_rows :
      DeleteOutcomes → String → Option String → Tables F → Answer (Option String) × Tables F
  remove_rows o name told t =
      let t1 = record t { placement = λ q. if str_eq q name then no_owners else t.placement q } in
      let t2 = record t1 { queues = delete name t1.queues } in
      let removed : Answer (Option String) × Tables F = elim o.remove [
        | failed ↦ (refused code_other, t1)
        | unsure ↦ (refused code_other, t2)
        | done ↦ (answered told, evict name t2)
      ] in
      elim o.drop_slots as (λ _. Answer (Option String) × Tables F) [
        | failed ↦ (refused code_other, t)
        | unsure ↦ (refused code_other, t1)
        | done ↦ removed
      ]

  -- DeleteQueue with the configuration that it has read.
  unfoldable pub delete_known :
      Cluster
      → DeleteOutcomes
      → String
      → QueueConfig F
      → Tables F
      → Answer (Option String) × Tables F
  unfolding dead_letter_users update_row settle_owner remove_rows
  delete_known c o name cfg t =
      let marked = update_row name (with_state deleting) t in
      let t1 = evict name marked in
      let told = drop_at (owner_addr c (placed_of cfg) 0 o.owner (placed_of cfg).owner).0 in
      let go : Answer (Option String) × Tables F = elim o.mark [
        | failed ↦ (refused code_other, t)
        | unsure ↦ (refused code_other, marked)
        | done ↦ remove_rows o name told (settle_owner c o.owner name cfg t1)
      ] in
      if not o.list
      then (refused code_other, t)
      else if not (length (dead_letter_users name t.queues) == 0)
      then (refused code_conflict, t)
      else go

  unfoldable pub delete_queue :
      Cluster → DeleteOutcomes → String → Tables F → Answer (Option String) × Tables F
  unfolding delete_known config
  delete_queue c o name t =
      let (a, t1) = config o.own t name in
      elim a as (λ _. Answer (Option String) × Tables F) [
        | refused e ↦ (refused e, t1)
        | answered cfg ↦ delete_known c o name cfg t1
      ]
