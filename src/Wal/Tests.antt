-- ===== src/Wal/Tests.antt =====
-- The theorems on the log, at small logs of the message "m1".
use ryuk_dpq.Base.{ℕ, ◌<◌, ◌≡◌, refl, some, List, [], ◌∷◌, ◌++◌, arith, length, take, total, All}
use ryuk_dpq.Engine.Message.{Message}
use ryuk_dpq.Wal.Record.{encode, put_uint32, torn, record_read, read_record}
use ryuk_dpq.Wal.Framing.{read_record-encode, read_record_torn}
use ryuk_dpq.Wal.Replay.{
  AttemptPayload, replay_slot, compact, message_from_payload, payload_from_message,
  message_from_payload-payload_from_message,
}
use ryuk_dpq.Wal.Compaction.{replay_slot-compact}
use ryuk_dpq.Wal.Holding.{IsWritten}
use ryuk_dpq.Wal.Codec.{
  codec, letter_codec, write_letter, write_drained, write_plain, read_plain, write_count,
  read_count,
}
use ryuk_dpq.Wal.Letters.{PendingDeadLetter, replay_dead_letters}
use ryuk_dpq.Wal.Letters.Laws.{Event, given, drained, IsLog, replay_dead_letters_recovers}
use ryuk_dpq.Wal.Letters.Laws
use ryuk_dpq.Wal.Changes.{left_by, NeverReturns, is_set, is_replaced, altered}
use ryuk_dpq.Wal.Told.{
  Said, enqueued, attempted, ended, skipped, Tells, Recovered, change_of, changes_of,
  replay_slot_recovers,
}
use ryuk_dpq.Wal.Recovery.{encode_all, Fits}

read_record-encode_example :
    read_record (encode 1 (123 ∷ 125 ∷ []) ++ 9 ∷ []) ≡ record_read 1 (123 ∷ 125 ∷ []) (9 ∷ [])
read_record-encode_example = read_record-encode 1 (123 ∷ 125 ∷ []) (9 ∷ []) (omega arith)

pub cut_short : 10 < length (encode 1 (123 ∷ 125 ∷ []))
unfolding encode put_uint32
cut_short = omega arith

read_record_torn_example : read_record (take 10 (encode 1 (123 ∷ 125 ∷ []))) ≡ torn
read_record_torn_example = read_record_torn 1 (123 ∷ 125 ∷ []) 10 (omega arith) cut_short

-- The message "m1" with no group, no expiry and two attempts.
abbrev message : Message
message = record {
  id = "m1";
  payload = 7 ∷ [];
  priority = 50;
  group_id = "";
  seq = 4;
  enqueued_at = 10;
  expires_at = 0;
  deliver_after = 0;
  attempts = 2;
}

abbrev body : List ℕ
body = 50 ∷ 4 ∷ 10 ∷ 7 ∷ []

-- The message is enqueued and attempted twice, and a record of another kind follows.
abbrev pub records : List (ℕ × List ℕ)
records = (1, body) ∷ (2, 2 ∷ 0 ∷ []) ∷ (9, []) ∷ []

abbrev attempted_twice : AttemptPayload
attempted_twice = record { id = "m1"; attempts = 2; epoch = 0 }

abbrev pub said : List Said
said = enqueued (payload_from_message message) ∷ attempted attempted_twice ∷ skipped ∷ []

pub records-Tells : Tells codec said records
unfolding codec read_plain read_count payload_from_message
records-Tells = ((refl, refl), ((refl, refl), ((refl, refl, refl), tt)))

pub records-Fits : All Fits records
records-Fits = (omega arith, (omega arith, (omega arith, tt)))

pub records_once : NeverReturns (changes_of said)
unfolding changes_of change_of
records_once = tt

-- The message ends.
abbrev ended_records : List (ℕ × List ℕ)
ended_records = (1, body) ∷ (2, 2 ∷ 0 ∷ []) ∷ (3, 0 ∷ []) ∷ []

abbrev ended_said : List Said
ended_said =
    enqueued (payload_from_message message)
    ∷ attempted attempted_twice
    ∷ ended (record { id = "m1"; kind = 0 })
    ∷ []

ended_records-Tells : Tells codec ended_said ended_records
unfolding codec read_plain read_count payload_from_message
ended_records-Tells = ((refl, refl), ((refl, refl), ((refl, refl), tt)))

ended_once : NeverReturns (changes_of ended_said)
unfolding changes_of change_of is_set
ended_once = (refl, tt)

nothing_left : left_by (changes_of ended_said) ≡ []
unfolding changes_of change_of left_by is_replaced payload_from_message
nothing_left = refl

-- What is left has its attempts.
one_left : left_by (changes_of said) ≡ message ∷ []
unfolding changes_of change_of left_by is_replaced altered payload_from_message message_from_payload
one_left = refl

replay_slot_recovers_example :
    Recovered
      (replay_slot codec (encode_all ended_records ++ take 10 (encode 1 (123 ∷ 125 ∷ []))))
      ended_said
      ended_records
replay_slot_recovers_example =
    replay_slot_recovers codec ended_said ended_records 1 (123 ∷ 125 ∷ []) 10 ended_records-Tells
      (omega arith, (omega arith, (omega arith, tt))) ended_once (omega arith) cut_short

message_from_payload-payload_from_message_example :
    message_from_payload (payload_from_message message) ≡ record message { attempts = 0 }
message_from_payload-payload_from_message_example =
    message_from_payload-payload_from_message message

message-IsWritten : IsWritten codec message
unfolding codec write_plain write_count payload_from_message
message-IsWritten = record {
  body = body;
  written = refl;
  fits = omega arith;
  count = 2 ∷ 0 ∷ [];
  counted = refl;
  small = omega arith;
}

replay_slot-compact_example :
    (bytes : List ℕ) × (compact codec (1 ∷ 2 ∷ []) (message ∷ []) 2 ≡ some bytes)
    × (replay_slot codec bytes ≡ some (message ∷ [], bytes))
replay_slot-compact_example =
    replay_slot-compact codec (1 ∷ 2 ∷ []) (message ∷ []) (message-IsWritten, tt) (tt, tt)

-- The letter of the message is given, given again, and drained.
abbrev letter_events : List Event
letter_events = given 3 message ∷ given 5 message ∷ drained "m1" ∷ []

abbrev letter_records : List (ℕ × List ℕ)
letter_records = (4, 3 ∷ body) ∷ (4, 5 ∷ body) ∷ (5, 0 ∷ []) ∷ []

letters-IsLog : IsLog letter_codec letter_events letter_records
unfolding letter_codec write_letter write_plain write_drained payload_from_message
letters-IsLog =
    ((refl, refl, omega arith), ((refl, refl, omega arith), ((refl, refl, omega arith), tt)))

letters_once : NeverReturns (Laws.changes_of letter_events)
unfolding Laws.changes_of Laws.change_of is_set
letters_once = (refl, tt)

replay_dead_letters_recovers_example :
    (ds : List PendingDeadLetter) × (replay_dead_letters letter_codec
        (some (encode_all letter_records ++ take 10 (encode 1 (123 ∷ 125 ∷ []))))
      ≡ some (ds, some (encode_all letter_records)))
    × (total (λ d. d.slot) ds ≡ total (λ d. d.slot) (left_by (Laws.changes_of letter_events)))
replay_dead_letters_recovers_example =
    replay_dead_letters_recovers letter_codec letter_events letter_records 1 (123 ∷ 125 ∷ []) 10
      (λ d. d.slot) letters-IsLog letters_once (omega arith) cut_short
