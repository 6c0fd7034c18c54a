-- ===== src/Gateway/Tests.antt =====
-- Two parked consumers; a queue of two nodes of which one has three messages.
use ryuk_dpq.Base.{
  ℕ, ◌<◌, ◌≡◌, refl, String, true, false, none, List, [], ◌∷◌, arith, if◌then◌else◌, ltb, str_eq,
  some, ◌==◌,
}
use ryuk_dpq.Base.Int.{pos, negsuc}
use ryuk_dpq.Base.Dict.{lookup}
use ryuk_dpq.Placement.{owner_for, candidates_for, best_of, challenge, winner}
use ryuk_dpq.Gateway.Owners.{Cluster, Placed, plan_slot, route_slots}
use ryuk_dpq.Gateway.Owners.Plans.{planned_route-Keeps}
use ryuk_dpq.Gateway.Waiters.{Waiters, waiting, wake}
use ryuk_dpq.Gateway.Waiters.Delivery.{AreFull, Delivers, wake-Delivers}
use ryuk_dpq.Gateway.Waiters.Wakes.{wake_times, wakes_reach_all}
use ryuk_dpq.Gateway.Routing.{
  code_moved, code_other, Answer, answered, refused, Try, with_owner, Owner,
}
use ryuk_dpq.Gateway.Routing.Retries.{MovedOn, with_owner_outlasts}
use ryuk_dpq.Gateway.Moves.{
  Call, done, failed, unsure, Slots, Node, World, Outcomes, Report, report, set_migrating,
  in_migration, migrate, move_route, reconcile,
}
use ryuk_dpq.Gateway.Moves.Safety.{migrate-Keeps}
use ryuk_dpq.Gateway.Moves.Holding.{Keeps}
use ryuk_dpq.Gateway.Moves.Repair.{IsClean, reconcile_spares}
use ryuk_dpq.Gateway.Moves.Settling.{pass_over, migrate-reconcile-IsClean}

abbrev parked : Waiters
parked = record {
  m = ("acme/jobs", record { ch = 1; full = true } ∷ record { ch = 2; full = false } ∷ []) ∷ [];
  next = ("acme/jobs", 1) ∷ [];
}

wake-Delivers_example : Delivers parked "acme/jobs" (wake parked "acme/jobs")
wake-Delivers_example = wake-Delivers parked "acme/jobs"

wakes_reach_all_example : AreFull (waiting (wake_times 2 parked "acme/jobs") "acme/jobs")
unfolding lookup wake
wakes_reach_all_example = wakes_reach_all parked "acme/jobs"

abbrev idle : Node ℕ
idle = record { held = λ i. []; frozen = λ i. false; applied = λ m. false }

abbrev two_nodes : World ℕ
two_nodes = record {
  nodes = λ k. if str_eq k "a" then record idle { held = λ i. 1 ∷ 2 ∷ 3 ∷ [] } else idle;
  owner = λ i. "a";
  migrating = false;
}

-- The owner is recorded without the gateway hearing of it.
abbrev lost_answer : Outcomes
lost_answer = record {
  begin = done;
  prepare = done;
  absorb = done;
  record_owner = λ i. unsure;
  discard = done;
  abort = done;
  end = done;
}

abbrev first_two : Slots
first_two i = ltb i 2

abbrev moved : World ℕ
moved = (migrate "a" "b" first_two "m1" lost_answer two_nodes).1

migrate-Keeps_example : Keeps moved 1 (1 ∷ 2 ∷ 3 ∷ [])
migrate-Keeps_example =
    migrate-Keeps "a" "b" first_two "m1" lost_answer two_nodes 1 refl refl refl refl

-- Only "b" is to have slots; "a" is up.
abbrev cluster : Cluster
cluster = record {
  members = record { id = "b"; addr = "10.0.0.2:7000" } ∷ [];
  up = λ k. if str_eq k "a" then some (record { id = "a"; addr = "10.0.0.1:7000" }) else none;
  less = λ j k. false;
  queue_key = "acme/jobs";
  slot_key = λ i. "acme/jobs/slot";
}

abbrev placed : Placed
placed = record { distributed = true; placement_width = pos 0; owner = λ i. "a" }

on_route : route_slots cluster placed "a" "b" 1 ≡ true
unfolding route_slots plan_slot owner_for candidates_for best_of challenge winner
on_route = refl

planned_route-Keeps_example :
    Keeps
      (move_route "a" "b" (route_slots cluster placed "a" "b") "m1" lost_answer 64 two_nodes).1
      1
      (1 ∷ 2 ∷ 3 ∷ [])
planned_route-Keeps_example =
    planned_route-Keeps cluster placed "a" "b" "m1" lost_answer 64 two_nodes 1 refl on_route
      (omega arith) refl

-- Slot 1 has no owner yet.
abbrev one_free : Placed
one_free = record placed { owner = λ i. if i == 1 then "" else "a" }

-- The tables have an owner for slot 1 since.
abbrev newer : ℕ → String
newer i = "b"

abbrev stale : List (String × Report × Call × Call)
stale = ("a", report 64 (two_nodes.nodes "a"), failed, done) ∷ []

reconcile_spares_example :
    ((reconcile stale moved).nodes ((reconcile stale moved).owner 1)).held 1
    ≡ (moved.nodes (moved.owner 1)).held 1
reconcile_spares_example = reconcile_spares stale moved 1

migrate-reconcile-IsClean_example :
    Keeps (pass_over 64 "a" "b" moved) 1 (1 ∷ 2 ∷ 3 ∷ [])
    × IsClean moved.owner "a" 1 ((pass_over 64 "a" "b" moved).nodes "a")
    × IsClean moved.owner "b" 1 ((pass_over 64 "a" "b" moved).nodes "b")
unfolding migrate in_migration set_migrating
migrate-reconcile-IsClean_example =
    migrate-reconcile-IsClean "a" "b" first_two "m1" lost_answer 64 two_nodes 1 refl refl
      (omega arith) refl refl refl

-- The first two tries meet a move; the third is answered.
abbrev moving : ℕ → Try ℕ
moving n = record {
  owner = answered "10.0.0.1:7000";
  answer = if ltb n 2 then refused code_moved else answered 7;
  cancelled = false;
  reread = none;
}

moved_twice : (i : ℕ) → i < 2 → MovedOn ℕ (moving i)
moved_twice i h =
    let early : ltb i 2 ≡ true = ground arith in
    record {
      addr = "10.0.0.1:7000";
      found = refl;
      moved = rw early refl;
      waited = refl;
      read = refl;
    }

with_owner_outlasts_example : with_owner moving ≡ (answered 7, 3)
with_owner_outlasts_example =
    with_owner_outlasts moving 2 7 "10.0.0.1:7000" (omega arith) moved_twice refl refl

abbrev two_owners : List Owner
two_owners =
    record { addr = "x"; top = negsuc 0; score = 0 }
    ∷ record { addr = "y"; top = pos 100; score = 1 }
    ∷ []

abbrev ask : String → Answer (List ℕ)
ask k = if str_eq k "y" then refused code_other else answered (4 ∷ [])
