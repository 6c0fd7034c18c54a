-- ===== src/Requests/Recovery/Tests.antt =====
-- A node starts with the log of slot 3: one message, and a write that was cut short.
use ryuk_dpq.Base.{ℕ, ◌≡◌, refl, Bool, true, some, [], ◌∷◌, arith, total}
use ryuk_dpq.Base.Int.{pos}
use ryuk_dpq.Engine.Accounts.{one}
use ryuk_dpq.Engine.Config.{Config}
use ryuk_dpq.Engine.Queue.Admission.{AreSound}
use ryuk_dpq.Engine.Queue.Holdings.{held_in}
use ryuk_dpq.Engine.Tests.Slots.{permille}
use ryuk_dpq.Wal.Codec.{codec}
use ryuk_dpq.Wal.Tests.{records, said, records-Tells, records-Fits, records_once, cut_short}
use ryuk_dpq.Wal.Directory.{Files}
use ryuk_dpq.Wal.Directory.Whole.{SlotLog, file_of, names_of, messages_at, message_count}
use ryuk_dpq.Requests.{LiveQueue, no_letters}
use ryuk_dpq.Requests.Recovery.{LettersLog, bare_spec, recover, recover_restores}

abbrev log_of_3 : SlotLog
log_of_3 = record {
  slot = 3;
  records = records;
  kind = 1;
  body = 123 ∷ 125 ∷ [];
  cut = 10;
  said = said;
}

abbrev files : Files
files i = some (file_of log_of_3)

abbrev all_same : Config ℕ → Config ℕ → Bool
all_same c d = true

abbrev letters : LettersLog
letters = record { log = no_letters; read = true; rewritten = true }

recover_restores_example :
    (lq : LiveQueue ℕ) × ((recover permille all_same codec
        (bare_spec 0 "acme" "jobs")
        77
        true
        letters
        (some (names_of (log_of_3 ∷ [])))
        files
        20).0
      ≡ some lq)
    × AreSound lq.q.slots
    × (held_in one 3 lq.q.slots ≡ total (messages_at one 3) (log_of_3 ∷ []))
    × (lq.q.depth ≡ pos (total message_count (log_of_3 ∷ [])))
recover_restores_example =
    recover_restores permille all_same codec (bare_spec 0 "acme" "jobs") 77 letters (log_of_3 ∷ [])
      files 20 one 3
      (
        record {
          numbered = omega arith;
          fits = records-Fits;
          last_fits = omega arith;
          short = cut_short;
          tells = records-Tells;
          never = records_once;
        },
        tt,
      )
      (refl, tt, tt) (λ m n t. refl)
