-- ===== src/Gateway/Metrics/Tests.antt =====
-- Two slots of a node that answers, and one of a node that is not there.
use ryuk_dpq.Base.{ℕ, ◌≡◌, String, Option, none, some, List, [], ◌∷◌, if◌then◌else◌, str_eq, total}
use ryuk_dpq.Gateway.Routing.{Answer, answered}
use ryuk_dpq.Gateway.Metrics.{NodeStats, no_stats, distributed_stats}
use ryuk_dpq.Gateway.Metrics.Unavailable.{unheard, unavailable_slots_counted}

abbrev says : String → Option (Answer NodeStats)
says owner = if str_eq owner "n1" then some (answered (no_stats "acme" "jobs")) else none

abbrev owners : List (ℕ × String)
owners = (0, "n1") ∷ (1, "n2") ∷ (2, "n1") ∷ (3, "") ∷ []

unavailable_slots_counted_example :
    (distributed_stats says "acme" "jobs" owners).1 ≡ total (unheard says) owners
unavailable_slots_counted_example = unavailable_slots_counted says "acme" "jobs" owners
