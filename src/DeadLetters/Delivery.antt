-- ===== src/DeadLetters/Delivery.antt =====
-- backend/gateway/logic/deadletter-logic.go: deliverDeadLetter and RouteDeadLetters. The source queue's
-- settings, and the enqueue into the queue that they name, are calls whose results are arguments.
use ryuk_dpq.Base.{String, Bool, true, false, not, ◌||◌, List, [], ◌∷◌, if◌then◌else◌, str_eq}
use ryuk_dpq.Wal.Letters.{PendingDeadLetter}
use ryuk_dpq.Gateway.Moves.{Call, failed}
use ryuk_dpq.DeadLetters.{Letters, dead_letters, ack_dead_letters}

pub data DeadLetterOutcome : Type 0 where
  dead_letter_moved : DeadLetterOutcome
  dead_letter_retry : DeadLetterOutcome
  dead_letter_drop : DeadLetterOutcome

-- What is found of the source queue: the queue that its dead letters go to, that there is no such
-- source queue, or another error.
pub data Source : Type 0 where
  target : String → Source
  not_found : Source
  unknown : Source

-- `accepted` is whether the enqueue into the target was answered without an error.
unfoldable pub deliver_dead_letter : Source → (String → Bool) → DeadLetterOutcome
deliver_dead_letter not_found accepted = dead_letter_drop
deliver_dead_letter unknown accepted = dead_letter_retry
deliver_dead_letter (target t) accepted =
    if str_eq t ""
    then dead_letter_drop
    else if not (accepted t)
    then dead_letter_retry
    else dead_letter_moved

abbrev pub is_done : DeadLetterOutcome → Bool
is_done dead_letter_retry = false
is_done _ = true

-- Of the letters reported, those that are moved or dropped.
unfoldable pub done_ids :
    (PendingDeadLetter → DeadLetterOutcome) → List PendingDeadLetter → List String
done_ids outcome [] = []
done_ids outcome (d ∷ ds) =
    let rest = done_ids outcome ds in if is_done (outcome d) then d.msg.id ∷ rest else rest

unfoldable pub among : List String → String → Bool
among [] k = false
among (j ∷ js) k = str_eq j k || among js k

-- Nothing is acknowledged where nothing was done. The call may get lost.
unfoldable pub acknowledge : List String → Call → (String → Bool) → Letters → Letters
unfolding among
acknowledge [] ack written n = n
acknowledge (k ∷ ks) failed written n = n
acknowledge (k ∷ ks) ack written n = ack_dead_letters (among (k ∷ ks)) written n

-- One node in one round: what was moved or dropped, and the node after the acknowledgement.
unfoldable pub route :
    (PendingDeadLetter → DeadLetterOutcome)
    → Call
    → (String → Bool)
    → Letters
    → List String × Letters
unfolding done_ids acknowledge
route outcome ack written n =
    let ids = done_ids outcome (dead_letters n) in (ids, acknowledge ids ack written n)
