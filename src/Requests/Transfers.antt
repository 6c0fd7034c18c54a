-- ===== src/Requests/Transfers.antt =====
-- backend/queue/logic/migration-logic.go: what a node does with a transfer of slots to one of its
-- queues, message by message in the log first. Opening the queue, the clock and which records the log
-- takes are arguments; the records taken are kept newest first.
pub mod Retries
mod Tests
use ryuk_dpq.Base.{
  ℕ, String, Bool, true, false, not, ◌&&◌, ◌||◌, Option, none, some, List, [], ◌∷◌, str_eq, ltb,
  if◌then◌else◌, total,
}
use ryuk_dpq.Engine.Message.{Message}
use ryuk_dpq.Engine.Config.{Floats, Config}
use ryuk_dpq.Engine.Queue.{Queue}
use ryuk_dpq.Engine.Migrate.{BySlot, absorb, thaw}
use ryuk_dpq.Engine.Migrate.Absorbed.{list_length}
use ryuk_dpq.Wire.{QueueSpec, WireMessage, from_wire}
use ryuk_dpq.Requests.{LiveQueue, Reply, done, internal, queue_for}

pub record Transfer : Type 0 where
  pub move_id : String
  pub by_slot : List (ℕ × List WireMessage)

-- A node's entry for a queue, the moves that it has seen, and what the logs of the slots took.
pub record Holder (F : Type 0) : Type 0 where
  pub entry : Option (LiveQueue F)
  pub applied_moves : List String
  pub logged : List (ℕ × Message)

unfoldable pub is_applied : String → List String → Bool
is_applied id [] = false
is_applied id (k ∷ ks) = str_eq k id || is_applied id ks

-- Whether this is the first time that the move is seen.
unfoldable pub claim_move : String → List String → Bool × List String
unfolding is_applied
claim_move id ks = if is_applied id ks then (false, ks) else (true, id ∷ ks)

unfoldable pub received : List WireMessage → List Message
received [] = []
received (m ∷ ms) = from_wire m ∷ received ms

unfoldable pub received_all : List (ℕ × List WireMessage) → BySlot
unfolding received
received_all [] = []
received_all ((i, ms) ∷ b) = (i, received ms) ∷ received_all b

-- Stops at the first record that the log does not take.
unfoldable pub journal_slot :
    (ℕ → Message → Bool) → ℕ → List Message → List (ℕ × Message) → Bool × List (ℕ × Message)
journal_slot takes i [] log = (true, log)
journal_slot takes i (m ∷ ms) log =
    let rest = journal_slot takes i ms ((i, m) ∷ log) in if takes i m then rest else (false, log)

unfoldable pub journal_all :
    (ℕ → Message → Bool) → BySlot → List (ℕ × Message) → Bool × List (ℕ × Message)
unfolding journal_slot
journal_all takes [] log = (true, log)
journal_all takes ((i, ms) ∷ b) log =
    let (ok, log1) = journal_slot takes i ms log in
    let rest = journal_all takes b log1 in if ok then rest else (false, log1)

module _ (fl : Floats) (same : Config fl.F → Config fl.F → Bool) where
  -- The answer, and whether consumers are told.
  unfoldable pub absorb_new :
      LiveQueue fl.F
      → List String
      → List (ℕ × Message)
      → BySlot
      → (ℕ → Message → Bool)
      → ℕ
      → (Reply Unit × Bool) × Holder fl.F
  unfolding journal_all
  absorb_new lq moves log b takes now =
      let (ok, log1) = journal_all takes b log in
      if not ok
      then ((internal, false), record { entry = some lq; applied_moves = moves; logged = log1 })
      else (
        (done tt, ltb 0 (total list_length b)),
        record {
          entry = some (record lq { q = thaw (absorb b now lq.q) });
          applied_moves = moves;
          logged = log1;
        },
      )

  -- The move is claimed before anything is written.
  unfoldable pub absorb_known :
      LiveQueue fl.F
      → Holder fl.F
      → Transfer
      → (ℕ → Message → Bool)
      → ℕ
      → (Reply Unit × Bool) × Holder fl.F
  unfolding absorb_new claim_move received_all
  absorb_known lq n t takes now =
      let (first, moves) = claim_move t.move_id n.applied_moves in
      if str_eq t.move_id ""
      then absorb_new lq n.applied_moves n.logged (received_all t.by_slot) takes now
      else if first
      then absorb_new lq moves n.logged (received_all t.by_slot) takes now
      else ((done tt, false), record n { entry = some lq })

  unfoldable pub absorb_request :
      Holder fl.F
      → QueueSpec fl.F
      → ℕ
      → Bool
      → Transfer
      → (ℕ → Message → Bool)
      → ℕ
      → (Reply Unit × Bool) × Holder fl.F
  unfolding absorb_known
  absorb_request n spec incarnation opened t takes now =
      elim (queue_for fl same n.entry spec incarnation opened) [
        | none ↦ ((internal, false), n)
        | some lq ↦ absorb_known lq n t takes now
      ]
