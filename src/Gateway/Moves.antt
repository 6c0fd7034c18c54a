-- ===== src/Gateway/Moves.antt =====
-- backend/gateway/logic/rebalance-logic.go and reconcile-logic.go, with the node's part of a move in
-- backend/queue/logic/migration-logic.go: the slots of one queue are handed from node to node. What a
-- node keeps of a slot is its messages, in no order, and whether it is held out of service
-- (Engine.Migrate has these operations on the engine's slots, with their order); a set of slots is a
-- test on their numbers. A call of another process may be carried out and answered, or not be carried
-- out, or be carried out with the answer lost; one that fails half way is not modelled, nor are messages
-- that come in while a move runs.
pub mod Holding
pub mod Safety
pub mod Repair
pub mod Settling
use ryuk_dpq.Base.{
  ℕ, zero, suc, ◌+◌, String, Bool, true, false, not, ◌&&◌, ◌||◌, List, [], ◌∷◌, ◌++◌, ◌==◌, ltb,
  if◌then◌else◌, str_eq, length,
}
use ryuk_dpq.Base.Dict.{lookup}

pub data Call : Type 0 where
  done : Call
  failed : Call
  unsure : Call

-- What the caller takes for success.
abbrev pub heard : Call → Bool
heard done = true
heard _ = false

-- The slots named.
abbrev pub Slots : Type 0
Slots = ℕ → Bool

pub record Node (M : Type 0) : Type 0 where
  pub held : ℕ → List M
  pub frozen : ℕ → Bool
  pub applied : String → Bool

-- The nodes by identifier, and of the queue the owner of each slot and its state. A queue that is not
-- distributed has its one owner at every slot.
pub record World (M : Type 0) : Type 0 where
  pub nodes : String → Node M
  pub owner : ℕ → String
  pub migrating : Bool

module _ {M : Type 0} where
  abbrev pub is_empty : List M → Bool
  is_empty ms = length ms == 0

  abbrev pub set_node : String → Node M → World M → World M
  set_node k n w = record w { nodes = λ j. if str_eq j k then n else w.nodes j }

  -- A call's effect, if it has one.
  abbrev pub call : Call → (World M → World M) → World M → World M
  call failed effect w = w
  call _ effect w = effect w

  -- PrepareMove: the slots are held out of service, and copies are returned.
  unfoldable pub freeze : Slots → Node M → Node M
  freeze s n = record n { frozen = λ i. s i || n.frozen i }

  unfoldable pub copies : Slots → Node M → ℕ → List M
  copies s n i = if s i then n.held i else []

  -- Absorb: a move is applied once. What is held is listed in no order: the engine's Absorb sorts what
  -- comes and puts each group's in front of its own, and Engine.Migrate.Absorbed shows that a slot then
  -- holds both.
  unfoldable pub absorb : String → (ℕ → List M) → Node M → Node M
  absorb move transfer n = if not (str_eq move "") && n.applied move then n else record n {
    held = λ i. transfer i ++ n.held i;
    applied = λ k. not (str_eq move "") && str_eq k move || n.applied k;
  }

  unfoldable pub discard : Slots → Node M → Node M
  discard s n = record n {
    held = λ i. if s i then [] else n.held i;
    frozen = λ i. not (s i) && n.frozen i;
  }

  -- AbortMove: the slots are back in service.
  unfoldable pub thaw : Slots → Node M → Node M
  thaw s n = record n { frozen = λ i. not (s i) && n.frozen i }

  abbrev pub at_node : String → (Node M → Node M) → World M → World M
  at_node k f w = set_node k (f (w.nodes k)) w

  unfoldable pub set_owner : Slots → String → World M → World M
  set_owner s k w = record w { owner = λ i. if s i then k else w.owner i }

  unfoldable pub set_migrating : Bool → World M → World M
  set_migrating b w = record w { migrating = b }

-- How the calls of one move go.
pub record Outcomes : Type 0 where
  pub begin : Call
  pub prepare : Call
  pub absorb : Call
  pub record_owner : ℕ → Call
  pub discard : Call
  pub abort : Call
  pub end : Call

-- The slots below `n` in the set all pass.
unfoldable pub all_below : ℕ → Slots → Bool
all_below zero p = true
all_below (suc n) p = p n && all_below n p

module _ {M : Type 0} (from to : String) (s : Slots) (move : String) (o : Outcomes) where
  unfoldable pub abort_move : World M → World M
  abort_move w = call o.abort (at_node from (thaw s)) w

  -- migrate: the whole queue, whose owner is one row.
  unfoldable pub commit_whole : World M → Bool × World M
  unfolding abort_move set_owner
  commit_whole w =
      let w1 = call (o.record_owner 0) (set_owner (λ _. true) to) w in
      if not (heard (o.record_owner 0))
      then (false, abort_move w1)
      else (true, call o.discard (at_node from (discard s)) w1)

  unfoldable pub set_owners : World M → World M
  set_owners w = record w {
    owner =
        λ i. elim (o.record_owner i) [ failed ↦ w.owner i | _ ↦ (if s i then to else w.owner i) ];
  }

  -- rebalanceSlots: each slot has a row. Half written, the placement is left to the reconciler.
  unfoldable pub commit_slots : ℕ → World M → Bool × World M
  unfolding set_owners
  commit_slots count w =
      let w1 = set_owners w in
      if not (all_below count (λ i. not (s i) || heard (o.record_owner i)))
      then (false, w1)
      else (true, call o.discard (at_node from (discard s)) w1)

  -- Freeze, copy, absorb; then `commit`. Nothing is removed before it.
  unfoldable pub hand_over : (World M → Bool × World M) → World M → Bool × World M
  unfolding abort_move freeze copies absorb
  hand_over commit w =
      let transfer = copies s (w.nodes from) in
      let w1 = call o.prepare (at_node from (freeze s)) w in
      let w2 = call o.absorb (at_node to (absorb move transfer)) w1 in
      if not (heard o.prepare)
      then (false, w1)
      else if not (heard o.absorb)
      then (false, abort_move w2)
      else commit w2

  -- The row of the queue says that it is moving, until the end.
  unfoldable pub in_migration : (World M → Bool × World M) → World M → Bool × World M
  in_migration body w =
      let w1 = call o.begin (set_migrating true) w in
      let (r, w2) = body w1 in
      if not (heard o.begin) then (false, w1) else (r, call o.end (set_migrating false) w2)

  unfoldable pub migrate : World M → Bool × World M
  migrate w = in_migration (hand_over commit_whole) w

  -- One route of rebalanceSlots.
  unfoldable pub move_route : ℕ → World M → Bool × World M
  move_route count w = in_migration (hand_over (commit_slots count)) w

-- Held: the slots with messages, and those out of service.
pub record Report : Type 0 where
  pub has : Slots
  pub out : Slots

unfoldable pub report : {M : Type 0} → ℕ → Node M → Report
report count n = record {
  has = λ i. ltb i count && not (is_empty (n.held i));
  out = λ i. ltb i count && n.frozen i;
}

-- The slots that a node holds for another owner, and those that it owns and holds out of service.
unfoldable pub orphaned : (ℕ → String) → String → Report → Slots
orphaned place k r i = r.has i && not (str_eq (place i) "") && not (str_eq (place i) k)

unfoldable pub stranded : (ℕ → String) → String → Report → Slots
stranded place k r i = r.out i && str_eq (place i) k

-- What one report leads to; the two calls go as `a` and `d` say.
unfoldable pub repair : {M : Type 0} → String → Report → Call → Call → World M → World M
repair k r a d w =
    let w1 = call a (at_node k (thaw (stranded w.owner k r))) w in
    call d (at_node k (discard (orphaned w.owner k r))) w1

-- The reports were taken before; a queue in migration is left alone.
unfoldable pub repair_all : {M : Type 0} → List (String × Report × Call × Call) → World M → World M
repair_all [] w = w
repair_all ((k, r, a, d) ∷ rs) w = repair_all rs (repair k r a d w)

unfoldable pub reconcile : {M : Type 0} → List (String × Report × Call × Call) → World M → World M
reconcile rs w = if w.migrating then w else repair_all rs w
