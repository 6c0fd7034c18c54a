-- ===== src/Placement/Tests.antt =====
-- The theorems on the owner of a key, at three nodes.
use ryuk_dpq.Base.{true, arith, ◌≡◌, String, none, some, List, [], ◌∷◌, ◌⊎◌}
use ryuk_dpq.Placement.{Member, hash64, owner_for}
use ryuk_dpq.Placement.Keys.{owner_key, owner_key_for, owner_key-owner_key_for}
use ryuk_dpq.Placement.Ranking.{IsWinner, owner_for_wins, owner_for_joins}

abbrev node : String → Member
node id = record { id = id; addr = "10.0.0.1:7000" }

abbrev nodes : List Member
nodes = node "a" ∷ node "b" ∷ []

owner_for_wins_example :
    ((nodes ≡ []) × (owner_for "acme/orders" nodes ≡ none))
    ⊎ ((b : Member) × (owner_for "acme/orders" nodes ≡ some b)
        × IsWinner (hash64 "acme/orders") b nodes)
owner_for_wins_example = owner_for_wins "acme/orders" nodes

owner_for_joins_example :
    (owner_for "acme/orders" (node "a" ∷ node "c" ∷ node "b" ∷ []) ≡ some (node "c"))
    ⊎ (owner_for "acme/orders" (node "a" ∷ node "c" ∷ node "b" ∷ [])
        ≡ owner_for "acme/orders" nodes)
owner_for_joins_example = owner_for_joins "acme/orders" (node "c") (node "a" ∷ []) (node "b" ∷ [])

owner_key-owner_key_for_example :
    owner_key "acme" "orders" 63 true ≡ some (owner_key_for "acme" "orders" 63 true)
owner_key-owner_key_for_example = owner_key-owner_key_for "acme" "orders" 63 true (omega arith)
