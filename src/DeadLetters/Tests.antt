-- ===== src/DeadLetters/Tests.antt =====
-- A letter is journaled, its round loses the acknowledgement, and the node restarts.
use ryuk_dpq.Base.{◌≡◌, refl, String, Bool, true, false, some, [], ◌∷◌, ◌⊎◌}
use ryuk_dpq.Base.Dict.{lookup}
use ryuk_dpq.Engine.Message.{Message}
use ryuk_dpq.Wal.Letters.{PendingDeadLetter}
use ryuk_dpq.Gateway.Moves.{failed}
use ryuk_dpq.DeadLetters.{recover_dead_letters}
use ryuk_dpq.DeadLetters.Delivery.{Source, target}
use ryuk_dpq.DeadLetters.History.{History, offered, routed, restarted, Reach, start, later}
use ryuk_dpq.DeadLetters.Safety.{journaled_letter_survives}

abbrev message : Message
message = record {
  id = "a1";
  payload = 7 ∷ [];
  priority = 50;
  group_id = "";
  seq = 3;
  enqueued_at = 10;
  expires_at = 0;
  deliver_after = 0;
  attempts = 3;
}

abbrev to_failed : PendingDeadLetter → Source
to_failed d = target "failed"

abbrev refused : PendingDeadLetter → String → Bool
refused d t = false

abbrev restarts : (s : History) × Reach s
restarts = (
  _,
  later (later (later start (offered 3 message)) (routed to_failed refused failed (λ k. true)))
      (restarted true),
)

journaled_letter_survives_example :
    ((restarts.0.taken "a1" ≡ true) ⊎ (restarts.0.unwanted "a1" ≡ true))
    ⊎ ((d : PendingDeadLetter) × (lookup "a1" (recover_dead_letters false restarts.0.letters).dl
          ≡ some d))
journaled_letter_survives_example = journaled_letter_survives false "a1" restarts.1 refl
