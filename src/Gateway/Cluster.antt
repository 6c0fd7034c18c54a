-- ===== src/Gateway/Cluster.antt =====
-- backend/gateway/logic/metrics-collector-logic.go, GetClusterDetails: which node has how many slots of
-- which queue. The map of places is a list in the order in which places are first met, which is also
-- the order of the queues under each node. The texts and addresses of the answer are left out.
pub mod Slots
mod Tests
use ryuk_dpq.Base.{
  ℕ, ◌+◌, String, Bool, true, false, not, ◌&&◌, ◌||◌, List, [], ◌∷◌, if◌then◌else◌, str_eq, total,
}
use ryuk_dpq.Slotting.{count_for}

-- A queue's row with the owners of its slots, under its organisation and name.
pub record Placement : Type 0 where
  pub key : String
  pub distributed : Bool
  pub owner_node : String
  pub slot_owners : List (ℕ × String)

pub record Place : Type 0 where
  pub node : String
  pub queue : String
  pub slots : ℕ

unfoldable pub is_place : String → String → Place → Bool
is_place n k p = str_eq p.node n && str_eq p.queue k

-- slots[place]++
unfoldable pub add_place : String → String → List Place → List Place
unfolding is_place
add_place n k [] = record { node = n; queue = k; slots = 1 } ∷ []
add_place n k (p ∷ ps) =
    if is_place n k p then record p { slots = p.slots + 1 } ∷ ps else p ∷ add_place n k ps

-- slots[place] = v, for a place that is there.
unfoldable pub set_place : String → String → ℕ → List Place → List Place
unfolding is_place
set_place n k v [] = []
set_place n k v (p ∷ ps) =
    if is_place n k p then record p { slots = v } ∷ ps else p ∷ set_place n k v ps

unfoldable pub add_owners : String → List (ℕ × String) → List Place → List Place
unfolding add_place
add_owners k [] ps = ps
add_owners k ((slot, owner) ∷ os) ps =
    add_owners k os (if str_eq owner "" then ps else add_place owner k ps)

unfoldable pub add_queue : Placement → List Place → List Place
unfolding add_owners set_place
add_queue c ps =
    if c.distributed
    then add_owners c.key c.slot_owners ps
    else if str_eq c.owner_node ""
    then ps
    else set_place c.owner_node c.key (count_for false) (add_place c.owner_node c.key ps)

unfoldable pub places : List Placement → List Place → List Place
unfolding add_queue
places [] ps = ps
places (c ∷ cs) ps = places cs (add_queue c ps)

unfoldable pub is_live : String → List String → Bool
is_live n [] = false
is_live n (m ∷ ms) = str_eq m n || is_live n ms

-- The slots of a queue that the answer shows under a node.
unfoldable pub shown : String → List Place → String → ℕ
shown k [] m = 0
shown k (p ∷ ps) m =
    let rest = shown k ps m in if str_eq p.node m && str_eq p.queue k then p.slots + rest else rest

-- The slots of a queue whose owner is no member.
unfoldable pub lost : String → List String → List Place → ℕ
unfolding is_live
lost k members [] = 0
lost k members (p ∷ ps) =
    let rest = lost k members ps in
    if not (is_live p.node members) && str_eq p.queue k then p.slots + rest else rest
