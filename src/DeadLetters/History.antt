-- ===== src/DeadLetters/History.antt =====
-- The history of a queue's dead letters: what was journaled, taken and unwanted over rounds of the gateway
-- and restarts of the node.
use ryuk_dpq.Base.{ℕ, String, Bool, true, false, not, ◌&&◌, ◌||◌, List, [], ◌∷◌, str_eq}
use ryuk_dpq.Engine.Message.{Message}
use ryuk_dpq.Wal.Letters.{PendingDeadLetter}
use ryuk_dpq.Gateway.Moves.{Call}
use ryuk_dpq.DeadLetters.{Letters, offer_dead_letter, dead_letters, recover_dead_letters}
use ryuk_dpq.DeadLetters.Delivery.{
  DeadLetterOutcome, Source, target, not_found, unknown, deliver_dead_letter, route,
}

-- A queue's letters, with the identifiers of those that were journaled so far, of those that a
-- dead-letter queue took, and of those that no queue is to take.
pub record History : Type 0 where
  pub letters : Letters
  pub journaled : String → Bool
  pub taken : String → Bool
  pub unwanted : String → Bool

abbrev pub empty_history : History
empty_history = record {
  letters = record { dl = []; log = [] };
  journaled = λ k. false;
  taken = λ k. false;
  unwanted = λ k. false;
}

-- The source queue names a queue for its dead letters, and the enqueue into that one succeeded.
unfoldable pub is_taken : Source → (String → Bool) → Bool
is_taken (target t) accepted = not (str_eq t "") && accepted t
is_taken not_found accepted = false
is_taken unknown accepted = false

-- The source queue is gone, or is known to name no queue.
unfoldable pub is_unwanted : Source → Bool
is_unwanted (target t) = str_eq t ""
is_unwanted not_found = true
is_unwanted unknown = false

-- One of the letters passes and has this identifier.
unfoldable pub has_such : (PendingDeadLetter → Bool) → String → List PendingDeadLetter → Bool
has_such p k [] = false
has_such p k (d ∷ ds) = p d && str_eq d.msg.id k || has_such p k ds

-- What a round finds for a letter.
abbrev pub outcome_of :
    (PendingDeadLetter → Source)
    → (PendingDeadLetter → String → Bool)
    → PendingDeadLetter
    → DeadLetterOutcome
outcome_of source accepts d = deliver_dead_letter (source d) (accepts d)

-- A letter is journaled; a round reaches the node, and stops anywhere; the node restarts.
pub data Step (s : History) : History → Type 0 where
  offered :
      (slot : ℕ) (m : Message)
      → Step s (record s {
        letters = offer_dead_letter true slot m s.letters;
        journaled = λ k. str_eq m.id k || s.journaled k;
      })
  routed :
      (source : PendingDeadLetter → Source) (accepts : PendingDeadLetter → String → Bool)
      (ack : Call) (written : String → Bool)
      → Step s (record s {
        letters = (route (outcome_of source accepts) ack written s.letters).1;
        taken = λ k.
            has_such (λ d. is_taken (source d) (accepts d)) k (dead_letters s.letters) || s.taken k;
        unwanted =
            λ k. has_such (λ d. is_unwanted (source d)) k (dead_letters s.letters) || s.unwanted k;
      })
  restarted :
      (rewritten : Bool) → Step s (record s { letters = recover_dead_letters rewritten s.letters })

pub data Reach : History → Type 0 where
  start : Reach empty_history
  later : {s t : History} → Reach s → Step s t → Reach t
