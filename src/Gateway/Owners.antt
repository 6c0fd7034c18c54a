-- ===== src/Gateway/Owners.antt =====
-- backend/gateway/logic/placement-logic.go, and the choice of what to move in rebalance-logic.go: where
-- a slot is served. The texts of the keys that are hashed, the order of the identifiers and the members
-- that are up are arguments. A queue that is not distributed has its one owner at every slot.
pub mod Answers
pub mod Plans
use ryuk_dpq.Base.{
  ℕ, ◌<◌, ◌≡◌, refl, sym, ap, ◌∙◌, String, Bool, true, false, not, ◌&&◌, ◌||◌, Option, none, some,
  List, [], ◌∷◌, ◌⊎◌, inl, inr, arith, ◌==◌, ==_iff, if◌then◌else◌, Bool-cases, Option-cases,
  str_eq, eq_iff, length,
}
use ryuk_dpq.Base.Int.{ℤ}
use ryuk_dpq.Placement.{Member, owner_for, candidates_for}
use ryuk_dpq.Gateway.Moves.{Call, done, failed, unsure, Slots, World, Outcomes, move_route}
use ryuk_dpq.Gateway.Routing.{Answer, answered, refused, Code, code_exhausted, code_other}

-- What was read of a queue.
pub record Placed : Type 0 where
  pub distributed : Bool
  pub placement_width : ℤ
  pub owner : ℕ → String

-- The members that are known, and the keys that the queue and its slots are hashed by.
pub record Cluster : Type 0 where
  pub members : List Member
  pub up : String → Option Member
  pub less : String → String → Bool
  pub queue_key : String
  pub slot_key : ℕ → String

module _ (c : Cluster) where
  unfoldable pub assign_owner : Placed → ℕ → Option Member
  assign_owner p slot =
      let among =
        if p.distributed
        then candidates_for c.less c.queue_key c.members p.placement_width
        else c.members in
      if length c.members == 0 then none else owner_for (c.slot_key slot) among

  -- SetOwner of the tables, which writes over what is there: one row for a slot of a distributed queue, or
  -- the one row of a queue, which is there.
  unfoldable pub record_owner : Placed → ℕ → String → (ℕ → String) → ℕ → String
  record_owner p slot id rows i = if not p.distributed || i == slot then id else rows i

  -- The first owner is written down; `write` is how that goes.
  unfoldable pub first_owner :
      Placed → ℕ → Call → Member → (ℕ → String) → Answer String × (ℕ → String)
  unfolding record_owner
  first_owner p slot failed m rows = (refused code_other, rows)
  first_owner p slot unsure m rows = (refused code_other, record_owner p slot m.id rows)
  first_owner p slot done m rows = (answered m.addr, record_owner p slot m.id rows)

  -- `p` is what was read of the queue, which may be an entry of the cache that is older than the rows of
  -- the tables.
  unfoldable pub owner_addr : Placed → ℕ → Call → (ℕ → String) → Answer String × (ℕ → String)
  unfolding first_owner
  owner_addr p slot write rows =
      let stored = elim (c.up (p.owner slot)) as (λ _. Answer String × (ℕ → String)) [
        | none ↦ (refused code_exhausted, rows)
        | some m ↦ (answered m.addr, rows)
      ] in
      let assigned = elim (assign_owner p slot) as (λ _. Answer String × (ℕ → String)) [
        | none ↦ (refused code_exhausted, rows)
        | some m ↦ first_owner p slot write m rows
      ] in
      if not (str_eq (p.owner slot) "") then stored else assigned

  -- Where the slot is to go from its owner, which is up, if it is to go anywhere.
  unfoldable pub plan_slot : Placed → ℕ → Option (String × String)
  plan_slot p slot =
      let current = p.owner slot in
      let to_go =
        elim (owner_for (c.slot_key slot)
            (candidates_for c.less c.queue_key c.members p.placement_width))
          as (λ _. Option (String × String)) [
            | none ↦ none
            | some want ↦
                (if str_eq want.id current
                  then none
                  else elim (c.up current) as (λ _. Option (String × String)) [
                    | none ↦ none
                    | some m ↦ some (current, want.id)
                  ])
          ] in
      if str_eq current "" then none else to_go

  -- The slots of one route.
  unfoldable pub route_slots : Placed → String → String → Slots
  unfolding plan_slot
  route_slots p from to slot = elim (plan_slot p slot) as (λ _. Bool) [
    | none ↦ false
    | some (f, t) ↦ str_eq f from && str_eq t to
  ]
