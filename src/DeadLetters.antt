-- ===== src/DeadLetters.antt =====
-- backend/queue/logic/deadletter-logic.go and backend/gateway/logic/deadletter-logic.go: the messages
-- that one queue has given up on, from the node that holds them to the queue they are to fail into.
-- The log is the events that its records say (Wal.Letters), and Wal.Letters.Laws is about their bytes.
pub mod Delivery
pub mod History
pub mod Log
pub mod Restart
pub mod Safety
mod Tests
use ryuk_dpq.Base.{
  ℕ, ◌+◌, String, Bool, true, false, not, ◌&&◌, Option, none, some, List, [], ◌∷◌, ◌++◌, map, ◌==◌,
  leb, if◌then◌else◌, length, str_eq,
}
use ryuk_dpq.Base.Dict.{put}
use ryuk_dpq.Engine.Message.{Message}
use ryuk_dpq.Wal.Letters.{PendingDeadLetter}
use ryuk_dpq.Wal.Letters.Laws.{Event, given, drained, outstanding}

abbrev pub max_pending_dead_letters : ℕ
max_pending_dead_letters = 10_000

-- One queue on its node: the letters in memory, and the log.
pub record Letters : Type 0 where
  pub dl : List (String × PendingDeadLetter)
  pub log : List Event

-- `journaled` is whether AppendDeadLetter has written the record.
unfoldable pub offer_dead_letter : Bool → ℕ → Message → Letters → Letters
offer_dead_letter journaled slot m n =
    let n1 = record n { log = n.log ++ given slot m ∷ [] } in
    if not journaled
    then n
    else if leb max_pending_dead_letters (length n1.dl)
    then n1
    else record n1 { dl = put m.id (record { slot = slot; msg = m }) n1.dl }

-- What the node reports; nothing is removed.
unfoldable pub dead_letters : Letters → List PendingDeadLetter
dead_letters n = map (λ e. e.1) n.dl

unfoldable pub keep_unless :
    (String → Bool) → List (String × PendingDeadLetter) → List (String × PendingDeadLetter)
keep_unless want [] = []
keep_unless want ((k, d) ∷ m) =
    let rest = keep_unless want m in if want k then rest else (k, d) ∷ rest

-- The identifiers that go, of which `written` are recorded.
unfoldable pub drained_events :
    (String → Bool) → (String → Bool) → List (String × PendingDeadLetter) → List Event
drained_events want written [] = []
drained_events want written ((k, d) ∷ m) =
    let rest = drained_events want written m in
    if want k && written k then drained k ∷ rest else rest

unfoldable pub ack_dead_letters : (String → Bool) → (String → Bool) → Letters → Letters
unfolding keep_unless drained_events
ack_dead_letters want written n = record {
  dl = keep_unless want n.dl;
  log = n.log ++ drained_events want written n.dl;
}

unfoldable pub restore :
    List PendingDeadLetter → List (String × PendingDeadLetter) → List (String × PendingDeadLetter)
restore [] dl = dl
restore (d ∷ ds) dl = restore ds (put d.msg.id d dl)

abbrev pub given_again : PendingDeadLetter → Event
given_again d = given d.slot d.msg

-- After a restart, with nothing in memory. `rewritten` is whether the log could be compacted.
unfoldable pub recover_dead_letters : Bool → Letters → Letters
unfolding restore
recover_dead_letters rewritten n =
    let pending = outstanding n.log in
    let n1 : Letters = record {
      dl = restore pending [];
      log = if rewritten then map given_again pending else n.log;
    } in
    if length pending == 0 then record n { dl = [] } else n1
