-- ===== src/Requests.antt =====
-- backend/queue/logic: what a node does for a request to one queue (queue-manager-logic.go,
-- enqueue-logic.go, dequeue-logic.go, ack-logic.go, and Sweep of sweeper-logic.go). Of the node's map
-- of queues there is the entry for the queue, or none. A request that may wake consumers says so by a
-- Boolean. Opening a log, the clock, new identifiers and the text of some bytes are arguments.
pub mod Numbers
pub mod Recovery
pub mod Repeats
pub mod Transfers
mod Tests
use ryuk_dpq.Base.{
  ℕ, zero, suc, ◌+◌, String, Bool, true, false, not, ◌&&◌, Option, none, some, List, [], ◌∷◌, ◌==◌,
  ltb, leb, if◌then◌else◌,
}
use ryuk_dpq.Base.Int.{ℤ, pos, negsuc}
use ryuk_dpq.Engine.Message.{
  Message, Receipt, EngineError, not_in_flight, lease_expired, bad_priority, queue_full,
  frozen_queue, Result, ok, err,
}
use ryuk_dpq.Engine.Config.{Floats, Config}
use ryuk_dpq.Engine.Queue.{
  EnqueueOptions, Queue, enqueue_to_slot, ack, nack, new_queue, reconfigure,
}
use ryuk_dpq.Engine.Dispatch.{dequeue}
use ryuk_dpq.Engine.Upkeep.{SweepResult, sweep}
use ryuk_dpq.DeadLetters.{Letters, offer_dead_letter}
use ryuk_dpq.Wire.{QueueSpec, engine_config}
use ryuk_dpq.Wire.Receipts.{Base64, Named, Decoded, named, decode_receipt, encode_receipt}

pub record LiveQueue (F : Type 0) : Type 0 where
  pub q : Queue F
  pub letters : Letters

pub data Reply (A : Type 0) : Type 0 where
  done : A → Reply A
  not_found : Reply A
  invalid : Reply A
  conflict : Reply A
  exhausted : Reply A
  moved : Reply A
  internal : Reply A

abbrev pub no_letters : Letters
no_letters = record { dl = []; log = [] }

pub record DeliveredMessage : Type 0 where
  pub message_id : String
  pub payload : List ℕ
  pub priority : ℕ
  pub group_id : String
  pub attempts : ℕ
  pub enqueued_at : ℕ
  pub receipt : List ℕ

module _ (fl : Floats) (same : Config fl.F → Config fl.F → Bool) where
  -- The queue is made on its first use; `none` where its log cannot be opened.
  unfoldable pub queue_for :
      Option (LiveQueue fl.F) → QueueSpec fl.F → ℕ → Bool → Option (LiveQueue fl.F)
  queue_for (some lq) spec incarnation opened =
      some (record lq { q = (reconfigure fl same lq.q (engine_config spec)).1 })
  queue_for none spec incarnation opened =
      if opened
      then some (record {
        q = new_queue fl (engine_config spec) incarnation spec.generation;
        letters = no_letters;
      })
      else none

  -- The answer to the result of EnqueueToSlot, and whether consumers are told.
  unfoldable pub enqueue_reply : ℕ → Option (Result Message) → Reply (String × ℕ × ℕ) × Bool
  enqueue_reply slot none = (internal, false)
  enqueue_reply slot (some (ok m)) = (done (m.id, slot, m.seq), true)
  enqueue_reply slot (some (err bad_priority)) = (invalid, false)
  enqueue_reply slot (some (err queue_full)) = (exhausted, false)
  enqueue_reply slot (some (err frozen_queue)) = (moved, false)
  enqueue_reply slot (some (err _)) = (internal, false)

  -- The slot is chosen by the caller.
  unfoldable pub enqueue_request :
      LiveQueue fl.F
      → Option ℕ
      → EnqueueOptions
      → ℕ
      → String
      → Bool
      → (Reply (String × ℕ × ℕ) × Bool) × LiveQueue fl.F
  unfolding enqueue_reply
  enqueue_request lq none o now new_id logged = ((invalid, false), lq)
  enqueue_request lq (some slot) o now new_id logged =
      let (r, q1) = enqueue_to_slot lq.q slot o now new_id logged in
      (enqueue_reply slot r, record lq { q = q1 })

  abbrev pub delivered : Base64 → Message → Receipt → DeliveredMessage
  delivered b m r = record {
    message_id = m.id;
    payload = m.payload;
    priority = m.priority;
    group_id = m.group_id;
    attempts = m.attempts;
    enqueued_at = m.enqueued_at;
    receipt = encode_receipt b r;
  }

  -- One message, or ten at most.
  unfoldable pub batch_size : ℤ → ℕ
  batch_size (pos n) = if n == 0 then 1 else if ltb 10 n then 10 else n
  batch_size (negsuc n) = 1

  unfoldable pub dequeue_loop : Base64 → ℕ → Queue fl.F → ℕ → List DeliveredMessage × Queue fl.F
  dequeue_loop b zero q now = ([], q)
  dequeue_loop b (suc n) q now =
      let (taken, q1) = dequeue fl q now in
      elim taken as (λ _. List DeliveredMessage × Queue fl.F) [
        | none ↦ ([], q1)
        | some (m, r) ↦ (let (ms, q2) = dequeue_loop b n q1 now in (delivered b m r ∷ ms, q2))
      ]

  unfoldable pub dequeue_request :
      Base64 → LiveQueue fl.F → ℤ → ℕ → List DeliveredMessage × LiveQueue fl.F
  unfolding batch_size dequeue_loop
  dequeue_request b lq n now =
      let (ms, q1) = dequeue_loop b (batch_size n) lq.q now in (ms, record lq { q = q1 })

abbrev pub receipt_of : (List ℕ → String) → Named → Receipt
receipt_of text n = record {
  slot = n.slot;
  message_id = text n.message_id;
  epoch = n.epoch;
  incarnation = n.incarnation;
}

-- A message that is not in flight was acknowledged or given up before.
unfoldable pub ack_reply : Option EngineError → Reply Unit
ack_reply none = done tt
ack_reply (some not_in_flight) = done tt
ack_reply (some lease_expired) = conflict
ack_reply (some _) = internal

module _ {F : Type 0} (b : Base64) (text : List ℕ → String) where
  unfoldable pub ack_decoded : LiveQueue F → Decoded → Reply Unit × LiveQueue F
  unfolding ack_reply
  ack_decoded lq (named n) =
      let (e, q1) = ack lq.q (receipt_of text n) in (ack_reply e, record lq { q = q1 })
  ack_decoded lq _ = (invalid, lq)

  unfoldable pub ack_request : Option (LiveQueue F) → List ℕ → Reply Unit × Option (LiveQueue F)
  ack_request none token = (not_found, none)
  ack_request (some lq) token =
      let (r, lq1) = ack_decoded lq (decode_receipt b token) in (r, some lq1)

  -- A message that is out of attempts goes to the dead letters; any other may be taken again.
  unfoldable pub nack_reply :
      LiveQueue F → ℕ → Bool → Result (Option Message) → (Reply Unit × Bool) × LiveQueue F
  nack_reply lq slot journaled (err not_in_flight) = ((done tt, false), lq)
  nack_reply lq slot journaled (err lease_expired) = ((conflict, false), lq)
  nack_reply lq slot journaled (err _) = ((internal, false), lq)
  nack_reply lq slot journaled (ok (some m)) =
      ((done tt, false), record lq { letters = offer_dead_letter journaled slot m lq.letters })
  nack_reply lq slot journaled (ok none) = ((done tt, true), lq)

  unfoldable pub nack_decoded :
      LiveQueue F → Decoded → ℤ → ℕ → Bool → (Reply Unit × Bool) × LiveQueue F
  unfolding nack_reply
  nack_decoded lq (named n) delay now journaled =
      let (r, q1) = nack lq.q (receipt_of text n) delay now in
      nack_reply (record lq { q = q1 }) n.slot journaled r
  nack_decoded lq _ delay now journaled = ((invalid, false), lq)

  unfoldable pub nack_request :
      Option (LiveQueue F) → List ℕ → ℤ → ℕ → Bool → (Reply Unit × Bool) × Option (LiveQueue F)
  nack_request none token delay now journaled = ((not_found, false), none)
  nack_request (some lq) token delay now journaled =
      let (r, lq1) = nack_decoded lq (decode_receipt b token) delay now journaled in (r, some lq1)

unfoldable pub offer_all : (Message → Bool) → List (ℕ × Message) → Letters → Letters
offer_all journaled [] n = n
offer_all journaled ((slot, m) ∷ ds) n =
    offer_all journaled ds (offer_dead_letter (journaled m) slot m n)

-- Sweep for one queue, and whether consumers are told.
unfoldable pub sweep_queue : {F : Type 0} → (Message → Bool) → LiveQueue F → ℕ → Bool × LiveQueue F
unfolding offer_all
sweep_queue journaled lq now =
    let (res, q1) = sweep lq.q now in
    (
      ltb 0 (res.redelivered + res.released),
      record { q = q1; letters = offer_all journaled res.dead_lettered lq.letters },
    )
