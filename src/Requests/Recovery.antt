-- ===== src/Requests/Recovery.antt =====
-- backend/queue/logic/recovery-logic.go: what a node does for one queue of its logs when it starts. The
-- queue is opened with the settings that a name alone has; opening the log, reading the letters and
-- the zero share are arguments.
mod Tests
use ryuk_dpq.Base.{
  ℕ, ◌+◌, ◌≡◌, refl, String, Bool, true, false, Option, none, some, List, [], ◌∷◌, ◌==◌,
  if◌then◌else◌, total, All, arith, sym, ap, ◌∙◌, Bool-cases, inl, inr,
}
use ryuk_dpq.Base.Int.{ℤ, pos, ◌+ℤ◌}
use ryuk_dpq.Engine.Message.{Message}
use ryuk_dpq.Engine.Config.{Floats, Config}
use ryuk_dpq.Engine.Accounts.{IsStable}
use ryuk_dpq.Engine.Queue.{Queue, find_slot, new_queue}
use ryuk_dpq.Engine.Queue.Admission.{AreSound}
use ryuk_dpq.Engine.Queue.Holdings.{held_at, held_in}
use ryuk_dpq.Engine.Migrate.{BySlot, absorb}
use ryuk_dpq.Engine.Migrate.Absorbed.{sent_to, list_length, absorb_correct}
use ryuk_dpq.DeadLetters.{Letters, recover_dead_letters}
use ryuk_dpq.Wire.{QueueSpec, engine_config}
use ryuk_dpq.Wal.Replay.{Json}
use ryuk_dpq.Wal.Directory.{Files, replay_names, replay}
use ryuk_dpq.Wal.Directory.Whole.{
  SlotLog, IsCutShort, names_of, AreStored, messages_at, message_count, Finds, replay_names-Finds,
}
use ryuk_dpq.Requests.{LiveQueue, queue_for}

-- QueueSpec{Org: …, Name: …}: everything else is zero.
abbrev pub bare_spec : {F : Type 0} → F → String → String → QueueSpec F
bare_spec zero_share org name = record {
  org = org;
  name = name;
  visibility_timeout = pos 0;
  max_retries = 0;
  default_ttl = pos 0;
  starvation_threshold = pos 0;
  starvation_reserve = zero_share;
  starvation_avoidance_enabled = false;
  max_depth = pos 0;
  distributed = false;
  has_dead_letter = false;
  generation = 0;
}

-- What the log of the letters gives, and whether it could be read and rewritten.
pub record LettersLog : Type 0 where
  pub log : Letters
  pub read : Bool
  pub rewritten : Bool

unfoldable pub recover_letters : LettersLog → Letters
recover_letters l =
    if l.read then recover_dead_letters l.rewritten l.log else record l.log { dl = [] }

-- A log that cannot be replayed is passed over, with the queue open and empty.
unfoldable pub absorb_replayed : {F : Type 0} → Option BySlot → ℕ → LiveQueue F → LiveQueue F
absorb_replayed none now lq = lq
absorb_replayed (some by_slot) now lq =
    if total list_length by_slot == 0 then lq else record lq { q = absorb by_slot now lq.q }

no_slots-AreSound : AreSound []
unfolding find_slot
no_slots-AreSound i s e = cc

-- Where there is no message, none is for a slot.
nothing_sent :
    (w : Message → ℕ) (i : ℕ) (b : BySlot) → total list_length b ≡ 0 → total (sent_to w i) b ≡ 0
nothing_sent w i [] h = refl
nothing_sent w i ((k, []) ∷ b) h = ground (arith, nothing_sent w i b (omega (arith, h)))
nothing_sent w i ((k, m ∷ ms) ∷ b) h = absurd (omega (arith, h))

from_zero : (n : ℕ) → pos 0 +ℤ pos n ≡ pos n
unfolding ◌+ℤ◌
from_zero n = ground arith

-- The queue that a recovery leaves: sound, with what was sent to each slot, and counted.
record Restored {F : Type 0} (b : BySlot) (lq : LiveQueue F) : Type 0 where
  sound : AreSound lq.q.slots
  holds : (w : Message → ℕ) (i : ℕ) → IsStable w → held_in w i lq.q.slots ≡ total (sent_to w i) b
  depth : lq.q.depth ≡ pos (total list_length b)

absorb_replayed-Restored :
    {F : Type 0} (b : BySlot) (now : ℕ) (lq : LiveQueue F)
    → lq.q.slots ≡ []
    → lq.q.depth ≡ pos 0
    → Restored b (absorb_replayed (some b) now lq)
unfolding absorb_replayed held_at find_slot
absorb_replayed-Restored {F} b now lq none_here no_depth =
    let fine : AreSound lq.q.slots = rw none_here no_slots-AreSound in
    let empty : (w : Message → ℕ) (i : ℕ) → held_in w i lq.q.slots ≡ 0 = λ w i. rw none_here refl in
    elim (Bool-cases (total list_length b == 0)) [
      | inl e ↦
          let zero_count : total list_length b ≡ 0 = ground (arith, e) in
          rw (e, absorb_replayed)
            record {
              sound = fine;
              holds = λ w i s. empty w i ∙ sym (nothing_sent w i b zero_count);
              depth = no_depth ∙ ap pos (sym zero_count);
            }
      | inr e ↦
          let (sound, more, depth, reached, seq) = absorb_correct b now lq.q fine in
          rw (e, absorb_replayed)
            record {
              sound = sound;
              holds = λ w i s. more w i s ∙ omega (arith, empty w i);
              depth =
                  depth
                  ∙ ap (λ d. d +ℤ pos (total list_length b)) no_depth
                  ∙ from_zero (total list_length b);
            }
    ]

module _ (fl : Floats) (same : Config fl.F → Config fl.F → Bool) (j : Json) where
  -- One round of the loop of Recover, for a queue that the node has not opened.
  unfoldable pub recover :
      QueueSpec fl.F
      → ℕ
      → Bool
      → LettersLog
      → Option (List (List ℕ))
      → Files
      → ℕ
      → Option (LiveQueue fl.F) × Files
  unfolding recover_letters absorb_replayed
  recover spec incarnation opened letters names files now =
      elim (queue_for fl same none spec incarnation opened) [
        | none ↦ (none, files)
        | some lq ↦
            let (by_slot, files1) = replay j names files in
            (
              some (absorb_replayed by_slot now (record lq { letters = recover_letters letters })),
              files1,
            )
      ]

  -- A node whose last writes were cut short starts again: for logs of whole records that decode, each
  -- of its slot, in which no message is enqueued again after its end, and cut short in a last write, the
  -- queue is there, sound, and has in each slot, by any measure that does not read attempts or delays,
  -- each message of the slot's log whose enqueue no later enqueue or end of the same identifier follows,
  -- and no other; the depth counts them.
  pub recover_restores :
      (spec : QueueSpec fl.F) (incarnation : ℕ) (letters : LettersLog) (ls : List SlotLog)
      (files : Files) (now : ℕ) (w : Message → ℕ) (i : ℕ)
      → All (IsCutShort j) ls
      → AreStored ls files
      → IsStable w
      → (lq : LiveQueue fl.F) × ((recover spec incarnation true letters
            (some (names_of ls))
            files
            now).0
          ≡ some lq)
        × AreSound lq.q.slots
        × (held_in w i lq.q.slots ≡ total (messages_at w i) ls)
        × (lq.q.depth ≡ pos (total message_count ls))
  unfolding recover queue_for new_queue replay absorb_replayed
  recover_restores spec incarnation letters ls files now w i good stored stable =
      let found = replay_names-Finds j ls files good stored in
      let lq : LiveQueue fl.F = record {
        q = new_queue fl (engine_config spec) incarnation spec.generation;
        letters = recover_letters letters;
      } in
      let back = absorb_replayed-Restored found.out now lq refl refl in
      (
        absorb_replayed (some found.out) now lq,
        ap (λ b. some (absorb_replayed b now lq)) found.answer,
        back.sound,
        back.holds w i stable ∙ found.at w i,
        back.depth ∙ ap pos found.count,
      )
