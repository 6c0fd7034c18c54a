-- ===== src/Wal/Replay.antt =====
-- backend/queue/repo/walfile/record.go and wal.go: what the records carry, how a slot's log is
-- written, replayed and compacted. encoding/json is a parameter: it may fail, and it reads back what
-- it wrote. The failures of the file system are not modelled.
use ryuk_dpq.Base.{
  refl, arith, ℕ, zero, suc, ◌+◌, ◌≡◌, String, not, Option, none, some, List, [], ◌∷◌, ◌++◌, ◌==◌,
  ltb, if◌then◌else◌, length, take, drop,
}
use ryuk_dpq.Base.Dict.{lookup, put, delete}
use ryuk_dpq.Engine.Message.{
  Message, TerminalKind, terminal_ack, terminal_expired, terminal_dead_lettered, is_zero_time,
}
use ryuk_dpq.Wal.Record.{
  kind_enqueue, kind_attempt, kind_terminal, header_len, encode, eof, torn, record_read,
  read_record,
}

pub record EnqueuePayload : Type 0 where
  pub id : String
  pub payload : List ℕ
  pub priority : ℕ
  pub group_id : String
  pub seq : ℕ
  pub enqueued_at : ℕ
  pub expires_at : Option ℕ
  pub deliver_after : Option ℕ

pub record AttemptPayload : Type 0 where
  pub id : String
  pub attempts : ℕ
  pub epoch : ℕ

pub record TerminalPayload : Type 0 where
  pub id : String
  pub kind : ℕ

-- json.Marshal and json.Unmarshal of the three payloads.
pub record Json : Type 0 where
  pub marshal_enqueue : EnqueuePayload → Option (List ℕ)
  pub unmarshal_enqueue : List ℕ → Option EnqueuePayload
  pub marshal_attempt : AttemptPayload → Option (List ℕ)
  pub unmarshal_attempt : List ℕ → Option AttemptPayload
  pub marshal_terminal : TerminalPayload → Option (List ℕ)
  pub unmarshal_terminal : List ℕ → Option TerminalPayload
  pub enqueue_back :
      (p : EnqueuePayload) (b : List ℕ) → marshal_enqueue p ≡ some b → unmarshal_enqueue b ≡ some p
  pub attempt_back :
      (p : AttemptPayload) (b : List ℕ) → marshal_attempt p ≡ some b → unmarshal_attempt b ≡ some p

time_or_zero : Option ℕ → ℕ
time_or_zero none = 0
time_or_zero (some t) = t

unfoldable pub message_from_payload : EnqueuePayload → Message
unfolding time_or_zero
message_from_payload p = record {
  id = p.id;
  payload = p.payload;
  priority = p.priority;
  group_id = p.group_id;
  seq = p.seq;
  enqueued_at = p.enqueued_at;
  expires_at = time_or_zero p.expires_at;
  deliver_after = time_or_zero p.deliver_after;
  attempts = 0;
}

unfoldable pub payload_from_message : Message → EnqueuePayload
payload_from_message m = record {
  id = m.id;
  payload = m.payload;
  priority = m.priority;
  group_id = m.group_id;
  seq = m.seq;
  enqueued_at = m.enqueued_at;
  expires_at = if not (is_zero_time m.expires_at) then some m.expires_at else none;
  deliver_after = if not (is_zero_time m.deliver_after) then some m.deliver_after else none;
}

time_kept : (t : ℕ) → time_or_zero (if not (is_zero_time t) then some t else none) ≡ t
unfolding time_or_zero
time_kept zero = refl
time_kept (suc t) = ground arith

-- A message survives its payload, but for its attempts.
pub message_from_payload-payload_from_message :
    (m : Message) → message_from_payload (payload_from_message m) ≡ record m { attempts = 0 }
unfolding message_from_payload payload_from_message
message_from_payload-payload_from_message m =
    rw (time_kept m.expires_at, time_kept m.deliver_after) refl

-- What the replay has so far: the live messages by identifier, and the order of the identifiers.
pub record Live : Type 0 where
  pub live : List (String × Message)
  pub order : List String

abbrev pub nothing_live : Live
nothing_live = record { live = []; order = [] }

unfoldable pub see : Live → EnqueuePayload → Live
see v p = record {
  live = put p.id (message_from_payload p) v.live;
  order = elim (lookup p.id v.live) [ none ↦ v.order ++ p.id ∷ [] | some m ↦ v.order ];
}

unfoldable pub count_attempt : Live → AttemptPayload → Live
count_attempt v p = elim (lookup p.id v.live) [
  | none ↦ v
  | some m ↦ record v { live = put p.id (record m { attempts = p.attempts }) v.live }
]

unfoldable pub end_message : Live → TerminalPayload → Live
end_message v p = record v { live = delete p.id v.live }

-- The messages in the order of their first record.
unfoldable pub live_messages : List (String × Message) → List String → List Message
live_messages live [] = []
live_messages live (k ∷ ks) = elim (lookup k live) [
  | none ↦ live_messages live ks
  | some m ↦ m ∷ live_messages live ks
]

unfoldable pub terminal_number : TerminalKind → ℕ
terminal_number terminal_ack = 0
terminal_number terminal_expired = 1
terminal_number terminal_dead_lettered = 2

unfoldable pub append : List ℕ → ℕ → Option (List ℕ) → Option (List ℕ)
append file kind none = none
append file kind (some body) = some (file ++ encode kind body)

-- What each record does to the state is `apply`. `good` bytes were read as whole records; the result has
-- as many of them as the file keeps.
unfoldable pub replay_loop :
    {S : Type 0} → (ℕ → List ℕ → S → Option S) → ℕ → List ℕ → ℕ → S → Option (S × ℕ)
replay_loop apply zero bytes good v = none
replay_loop apply (suc f) bytes good v = elim (read_record bytes) [
  | eof ↦ some (v, good)
  | torn ↦ some (v, good)
  | record_read kind body rest ↦ elim (apply kind body v) [
    | none ↦ none
    | some w ↦ replay_loop apply f rest (good + (header_len + length body)) w
  ]
]

module _ (j : Json) where
  -- One record; `none` is the error of json.Unmarshal. A kind that is none of the three is skipped.
  unfoldable pub apply_record : ℕ → List ℕ → Live → Option Live
  apply_record kind body v =
      if kind == kind_enqueue
      then elim (j.unmarshal_enqueue body) as (λ _. Option Live) [
        | none ↦ none
        | some p ↦ some (see v p)
      ]
      else if kind == kind_attempt
      then elim (j.unmarshal_attempt body) as (λ _. Option Live) [
        | none ↦ none
        | some p ↦ some (count_attempt v p)
      ]
      else if kind == kind_terminal
      then elim (j.unmarshal_terminal body) as (λ _. Option Live) [
        | none ↦ none
        | some p ↦ some (end_message v p)
      ]
      else some v

  -- The messages of a slot's file, and the file without its torn tail.
  unfoldable pub replay_slot : List ℕ → Option (List Message × List ℕ)
  replay_slot file = elim (replay_loop apply_record (suc (length file)) file 0 nothing_live) [
    | none ↦ none
    | some (v, good) ↦ some (live_messages v.live v.order, take good file)
  ]

  unfoldable pub append_enqueue : List ℕ → Message → Option (List ℕ)
  unfolding append
  append_enqueue file m = append file kind_enqueue (j.marshal_enqueue (payload_from_message m))

  -- The errors of these two appends are not reported: nothing is written.
  unfoldable pub append_attempt : List ℕ → String → ℕ → ℕ → List ℕ
  append_attempt file id attempts epoch =
      elim (j.marshal_attempt (record { id = id; attempts = attempts; epoch = epoch })) [
        | none ↦ file
        | some body ↦ file ++ encode kind_attempt body
      ]

  unfoldable pub append_terminal : List ℕ → String → TerminalKind → List ℕ
  append_terminal file id kind =
      elim (j.marshal_terminal (record { id = id; kind = terminal_number kind })) [
        | none ↦ file
        | some body ↦ file ++ encode kind_terminal body
      ]

  unfoldable pub compact_attempts : Message → List ℕ
  compact_attempts m =
      let p : AttemptPayload = record { id = m.id; attempts = m.attempts; epoch = 0 } in
      let written = elim (j.marshal_attempt p) as (λ _. List ℕ) [
        | none ↦ []
        | some body ↦ encode kind_attempt body
      ] in
      if ltb 0 m.attempts then written else []

  unfoldable pub compact_messages : List Message → Option (List ℕ)
  compact_messages [] = some []
  compact_messages (m ∷ ms) = elim (j.marshal_enqueue (payload_from_message m)) [
    | none ↦ none
    | some body ↦ elim (compact_messages ms) [
      | none ↦ none
      | some bytes ↦ some (encode kind_enqueue body ++ (compact_attempts m ++ bytes))
    ]
  ]

  -- The live messages, and then what was written past the mark.
  unfoldable pub compact : List ℕ → List Message → ℕ → Option (List ℕ)
  compact file ms mark = elim (compact_messages ms) [
    | none ↦ none
    | some bytes ↦ some (bytes ++ drop mark file)
  ]
