-- ===== src/Requests/Transfers/Tests.antt =====
-- A transfer of one message for slot 3.
use ryuk_dpq.Base.{ℕ, ◌+◌, ◌≡◌, refl, Bool, true, false, some, [], ◌∷◌, total}
use ryuk_dpq.Engine.Message.{Message}
use ryuk_dpq.Engine.Accounts.{one}
use ryuk_dpq.Engine.Config.{Config}
use ryuk_dpq.Engine.Queue.Admission.{AreSound}
use ryuk_dpq.Engine.Queue.Holdings.{held_in}
use ryuk_dpq.Engine.Migrate.Absorbed.{sent_to}
use ryuk_dpq.Engine.Tests.Slots.{permille, queue, no_slots-AreSound}
use ryuk_dpq.Wire.{QueueSpec, to_wire}
use ryuk_dpq.Requests.{Reply, done, internal, no_letters}
use ryuk_dpq.Requests.Recovery.{bare_spec}
use ryuk_dpq.Requests.Transfers.{
  Transfer, Holder, is_applied, received, received_all, journal_slot, journal_all, absorb_request,
}
use ryuk_dpq.Requests.Transfers.Retries.{
  slots_of, logged_to, failed_move_retry_loses, move_absorbed_once,
}

abbrev message : Message
message = record {
  id = "m1";
  payload = 7 ∷ [];
  priority = 50;
  group_id = "g";
  seq = 4;
  enqueued_at = 10;
  expires_at = 0;
  deliver_after = 0;
  attempts = 1;
}

abbrev transfer : Transfer
transfer = record { move_id = "mv-1"; by_slot = (3, to_wire message ∷ []) ∷ [] }

abbrev jobs : QueueSpec ℕ
jobs = bare_spec 0 "acme" "orders"

abbrev holder : Holder ℕ
holder = record {
  entry = some (record { q = queue; letters = no_letters });
  applied_moves = [];
  logged = [];
}

abbrev all_same : Config ℕ → Config ℕ → Bool
all_same c d = true

abbrev fails : ℕ → Message → Bool
fails i m = false

abbrev works : ℕ → Message → Bool
works i m = true

abbrev ask : Holder ℕ → (ℕ → Message → Bool) → ℕ → (Reply Unit × Bool) × Holder ℕ
ask n takes now = absorb_request permille all_same n jobs 77 true transfer takes now

not_taken : (journal_all fails (received_all transfer.by_slot) []).0 ≡ false
unfolding journal_all journal_slot received_all received
not_taken = refl

all_taken : (journal_all works (received_all transfer.by_slot) []).0 ≡ true
unfolding journal_all journal_slot received_all received
all_taken = refl

unseen : is_applied "mv-1" [] ≡ false
unfolding is_applied
unseen = refl

failed_move_retry_loses_example :
    let r = ask holder fails 20 in
    let u = ask r.1 works 30 in
    (r.0 ≡ (internal, false)) × (u.0 ≡ (done tt, false)) × (slots_of u.1 ≡ [])
failed_move_retry_loses_example =
    failed_move_retry_loses permille all_same jobs 77 true
      (record { q = queue; letters = no_letters }) [] [] transfer fails works 20 30 refl unseen
      not_taken

move_absorbed_once_example :
    let r = ask holder works 20 in
    let u = ask r.1 fails 30 in
    let came = total (sent_to one 3) (received_all transfer.by_slot) in
    (r.0.0 ≡ done tt)
    × AreSound (slots_of r.1)
    × (held_in one 3 (slots_of r.1) ≡ held_in one 3 [] + came)
    × (total (logged_to one 3) r.1.logged ≡ 0 + came)
    × (u.0.0 ≡ done tt)
    × (slots_of u.1 ≡ slots_of r.1)
move_absorbed_once_example =
    move_absorbed_once permille all_same jobs 77 true (record { q = queue; letters = no_letters })
      [] [] transfer works fails 20 30 one 3 no_slots-AreSound (λ m n t. refl) refl unseen all_taken
