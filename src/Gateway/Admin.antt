-- ===== src/Gateway/Admin.antt =====
-- backend/gateway/logic/queue-admin-logic.go, queue-settings-logic.go and config-cache-logic.go over
-- backend/gateway/repo/postgres: the queues of one organisation. A statement of SQL is what it is
-- documented to do to the rows. A call of the database may fail, or be carried out with the answer lost;
-- a read may fail.
pub mod Operations
pub mod Links
pub mod Creating
pub mod Changing
pub mod Leaving
pub mod Removing
pub mod Again
pub mod Runs
mod Tests
use ryuk_dpq.Base.{
  ℕ, zero, suc, ◌+◌, ◌≡◌, String, Bool, true, false, not, ◌&&◌, ◌||◌, Option, none, some, List, [],
  ◌∷◌, ◌==◌, if◌then◌else◌, str_eq, length, update,
}
use ryuk_dpq.Base.Dict.{lookup, put, delete}
use ryuk_dpq.Base.Int.{ℤ, pos, negsuc}
use ryuk_dpq.Placement.{Member}
use ryuk_dpq.Gateway.Moves.{Call, done, failed, unsure}
use ryuk_dpq.Gateway.Owners.{Placed, Cluster, assign_owner, owner_addr}
use ryuk_dpq.Gateway.Routing.{
  Answer, answered, refused, Code, code_not_found, code_conflict, code_invalid, code_other,
}
use ryuk_dpq.Gateway.Cache.{Entry, fetch_via_cache, write_cache, evict_cache}

pub data QueueState : Type 0 where
  active : QueueState
  migrating : QueueState
  deleting : QueueState

abbrev pub is_deleting : QueueState → Bool
is_deleting deleting = true
is_deleting _ = false

pub record Settings (F : Type 0) : Type 0 where
  pub visibility_timeout : ℤ
  pub max_retries : ℕ
  pub default_ttl : ℤ
  pub starvation_threshold : ℤ
  pub starvation_reserve : F
  pub starvation_avoidance_enabled : Bool
  pub max_depth : ℤ
  pub dead_letter_queue : String
  pub placement_width : ℤ

abbrev pub same_int : ℤ → ℤ → Bool
same_int (pos a) (pos b) = a == b
same_int (negsuc a) (negsuc b) = a == b
same_int _ _ = false

abbrev pub same_flag : Bool → Bool → Bool
same_flag true b = b
same_flag false b = not b

-- A row of the table of queues.
pub record Row (F : Type 0) : Type 0 where
  pub settings : Settings F
  pub distributed : Bool
  pub state : QueueState
  pub owner_node : String
  pub generation : ℕ

-- A row with the owners of its slots, "" where a slot has none.
pub record QueueConfig (F : Type 0) : Type 0 where
  pub row : Row F
  pub slot_owners : ℕ → String

-- The two tables, and the cache of this gateway.
pub record Tables (F : Type 0) : Type 0 where
  pub queues : List (String × Row F)
  pub placement : String → ℕ → String
  pub cache : List (String × Entry (QueueConfig F))

-- How a read through the cache goes: the two tables, and whether the entry is stored.
pub record Reads : Type 0 where
  pub row : Bool
  pub owners : Bool
  pub keep : Bool

abbrev pub no_owners : ℕ → String
no_owners i = ""

module _ {F : Type 0} where
  unfoldable pub load_config : Reads → Tables F → String → Answer (QueueConfig F)
  load_config o t name =
      let found : Answer (QueueConfig F) = elim (lookup name t.queues) [
        | none ↦ refused code_not_found
        | some row ↦
            (if not row.distributed
              then answered (record { row = row; slot_owners = no_owners })
              else if not o.owners
              then refused code_other
              else answered (record { row = row; slot_owners = t.placement name }))
      ] in
      if not o.row then refused code_other else found

  unfoldable pub config : Reads → Tables F → String → Answer (QueueConfig F) × Tables F
  unfolding load_config
  config o t name =
      let (a, c) = fetch_via_cache o.keep t.cache name (load_config o t name) in
      (a, record t { cache = c })

  -- UPDATE of the row under a name, if there is one.
  unfoldable pub update_row : String → (Row F → Row F) → Tables F → Tables F
  update_row name f t = elim (lookup name t.queues) as (λ _. Tables F) [
    | none ↦ t
    | some row ↦ record t { queues = put name (f row) t.queues }
  ]

  abbrev pub with_state : QueueState → Row F → Row F
  with_state s row = record row { state = s }

  abbrev pub with_settings : Settings F → Row F → Row F
  with_settings s row = record row { settings = s }

  abbrev pub with_owner_node : String → Row F → Row F
  with_owner_node id row = record row { owner_node = id }

  abbrev pub with_slot_owner : String → ℕ → String → Tables F → Tables F
  with_slot_owner name slot id t = record t {
    placement = λ q. if str_eq q name then update (t.placement name) slot id else t.placement q;
  }

  abbrev pub evict : String → Tables F → Tables F
  evict name t = record t { cache = evict_cache t.cache name }

  -- The names of the queues that send their failures to this one.
  unfoldable pub dead_letter_users : String → List (String × Row F) → List String
  dead_letter_users name [] = []
  dead_letter_users name ((k, row) ∷ rows) =
      let rest = dead_letter_users name rows in
      if not (str_eq k name) && str_eq row.settings.dead_letter_queue name then k ∷ rest else rest

  -- What a read of a dead-letter queue comes to: no code where the queue will do. A creation also
  -- refuses one that is being deleted.
  unfoldable pub dead_letter_code : Bool → Answer (QueueConfig F) → Option Code
  dead_letter_code creating (refused code_not_found) = some code_invalid
  dead_letter_code creating (refused code) = some code
  dead_letter_code creating (answered c) =
      if creating && is_deleting c.row.state then some code_invalid else none
