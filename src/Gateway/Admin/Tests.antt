-- ===== src/Gateway/Admin/Tests.antt =====
-- Queues of one organisation, at some requests.
use ryuk_dpq.Base.{ℕ, ◌≡◌, refl, String, Bool, true, false, none, some, List, [], ◌∷◌, ◌==◌}
use ryuk_dpq.Base.Dict.{lookup, put, delete}
use ryuk_dpq.Base.Int.{pos}
use ryuk_dpq.Gateway.Moves.{done}
use ryuk_dpq.Gateway.Owners.{Cluster, assign_owner}
use ryuk_dpq.Gateway.Routing.{answered}
use ryuk_dpq.Gateway.Cache.{fetch_via_cache, write_cache, evict_cache}
use ryuk_dpq.Gateway.Admin.{
  active, Settings, Row, Tables, Reads, no_owners, config, dead_letter_code,
}
use ryuk_dpq.Gateway.Admin.Operations.{
  Creation, CreateOutcomes, DeleteOutcomes, create_queue, delete_queue, check_dead_letter,
  insert_row, after_insert, finish_create, same_settings,
}
use ryuk_dpq.Gateway.Admin.Links.{links, Stands}
use ryuk_dpq.Gateway.Admin.Runs.{
  Request, create, remove, expire, run, empty_tables, dead_letter_queues_exist,
}
use ryuk_dpq.Gateway.Admin.Again.{create_again_forgets_owners}

abbrev settings : String → Settings ℕ
settings dlq = record {
  visibility_timeout = pos 30;
  max_retries = 3;
  default_ttl = pos 0;
  starvation_threshold = pos 0;
  starvation_reserve = 1;
  starvation_avoidance_enabled = false;
  max_depth = pos 0;
  dead_letter_queue = dlq;
  placement_width = pos 2;
}

abbrev nobody : Cluster
nobody = record {
  members = [];
  up = λ id. none;
  less = λ a b. false;
  queue_key = "";
  slot_key = λ i. "";
}

abbrev reads : Reads
reads = record { row = true; owners = true; keep = true }

abbrev all_done : CreateOutcomes
all_done = record {
  dead_letter = reads;
  insert = done;
  place = λ i. done;
  reload = reads;
  keep = true;
}

abbrev deleted : DeleteOutcomes
deleted = record {
  own = reads;
  list = true;
  mark = done;
  owner = done;
  drop_slots = done;
  remove = done;
}

abbrev same : ℕ → ℕ → Bool
same a b = a == b

abbrev creation : String → String → Bool → Creation ℕ
creation name dlq distributed = record {
  name = name;
  settings = settings dlq;
  distributed = distributed;
}

-- A dead-letter queue is created, then one that uses it, whose entry runs out; the deletion of the first
-- is refused.
abbrev day : List (Request {F = ℕ} same)
day =
    create nobody all_done (creation "failed" "" false)
    ∷ create nobody all_done (creation "jobs" "failed" false)
    ∷ expire "jobs"
    ∷ remove nobody deleted "failed"
    ∷ []

jobs_there : links (run same (empty_tables same) day) "jobs" ≡ some (settings "failed")
unfolding create_queue check_dead_letter insert_row after_insert finish_create delete_queue lookup
    put delete fetch_via_cache write_cache assign_owner evict_cache dead_letter_code
jobs_there = refl

dead_letter_queues_exist_example : Stands (links (run same (empty_tables same) day)) "failed"
dead_letter_queues_exist_example =
    dead_letter_queues_exist same day tt "jobs" (settings "failed") jobs_there

abbrev spread : Row ℕ
spread = record {
  settings = settings "";
  distributed = true;
  state = active;
  owner_node = "";
  generation = 1;
}

-- Every slot of the queue is on node a.
abbrev placed_on_a : Tables ℕ
placed_on_a = record { queues = ("jobs", spread) ∷ []; placement = λ q i. "a"; cache = [] }

owners_kept :
    (config reads placed_on_a "jobs").0 ≡ answered (record { row = spread; slot_owners = λ i. "a" })
unfolding config lookup fetch_via_cache
owners_kept = refl

create_again_forgets_owners_example :
    (config reads
      (create_queue same nobody all_done (creation "jobs" "" true) placed_on_a).1
      "jobs").0
    ≡ answered (record { row = spread; slot_owners = no_owners })
unfolding lookup same_settings
create_again_forgets_owners_example =
    create_again_forgets_owners same nobody all_done (creation "jobs" "" true) placed_on_a spread
      reads refl refl refl refl refl
