-- ===== src/Wal/Letters.antt =====
-- backend/queue/repo/walfile/deadletters.go: the log of the messages that a queue has given up on. A
-- queue has one, which may not exist yet; JSON and the file system are as in Wal/Replay.antt.
pub mod Laws
use ryuk_dpq.Base.{
  ℕ, suc, ◌+◌, ◌≡◌, String, Option, none, some, List, [], ◌∷◌, ◌++◌, ◌==◌, if◌then◌else◌, length,
  take,
}
use ryuk_dpq.Base.Dict.{lookup, put, delete}
use ryuk_dpq.Engine.Message.{Message}
use ryuk_dpq.Wal.Record.{encode}
use ryuk_dpq.Wal.Replay.{
  EnqueuePayload, TerminalPayload, message_from_payload, payload_from_message, replay_loop, append,
}

abbrev pub kind_dead_letter : ℕ
kind_dead_letter = 4

abbrev pub kind_dead_letter_drained : ℕ
kind_dead_letter_drained = 5

pub record DeadLetterPayload : Type 0 where
  pub slot : ℕ
  pub msg : EnqueuePayload

pub record PendingDeadLetter : Type 0 where
  pub slot : ℕ
  pub msg : Message

pub record LetterJson : Type 0 where
  pub marshal_letter : DeadLetterPayload → Option (List ℕ)
  pub unmarshal_letter : List ℕ → Option DeadLetterPayload
  pub marshal_terminal : TerminalPayload → Option (List ℕ)
  pub unmarshal_terminal : List ℕ → Option TerminalPayload
  pub letter_back :
      (p : DeadLetterPayload) (b : List ℕ) → marshal_letter p ≡ some b → unmarshal_letter b ≡ some p
  pub terminal_back :
      (p : TerminalPayload) (b : List ℕ)
      → marshal_terminal p ≡ some b
      → unmarshal_terminal b ≡ some p

-- The letters that wait by identifier, and the order of the identifiers.
pub record Waiting : Type 0 where
  pub live : List (String × PendingDeadLetter)
  pub order : List String

abbrev pub none_waiting : Waiting
none_waiting = record { live = []; order = [] }

unfoldable pub see_letter : Waiting → DeadLetterPayload → Waiting
see_letter v p = record {
  live = put p.msg.id (record { slot = p.slot; msg = message_from_payload p.msg }) v.live;
  order = elim (lookup p.msg.id v.live) [ none ↦ v.order ++ p.msg.id ∷ [] | some d ↦ v.order ];
}

unfoldable pub drain_letter : Waiting → TerminalPayload → Waiting
drain_letter v p = record v { live = delete p.id v.live }

unfoldable pub letters_in : List (String × PendingDeadLetter) → List String → List PendingDeadLetter
letters_in live [] = []
letters_in live (k ∷ ks) = elim (lookup k live) [
  | none ↦ letters_in live ks
  | some d ↦ d ∷ letters_in live ks
]

abbrev pub letter_payload : ℕ → Message → DeadLetterPayload
letter_payload slot m = record { slot = slot; msg = payload_from_message m }

-- The identifier only; the kind is the zero value.
abbrev pub drained_payload : String → TerminalPayload
drained_payload id = record { id = id; kind = 0 }

module _ (j : LetterJson) where
  unfoldable pub append_dead_letter : List ℕ → ℕ → Message → Option (List ℕ)
  unfolding append
  append_dead_letter file slot m =
      append file kind_dead_letter (j.marshal_letter (letter_payload slot m))

  unfoldable pub append_dead_letter_drained : List ℕ → String → Option (List ℕ)
  unfolding append
  append_dead_letter_drained file id =
      append file kind_dead_letter_drained (j.marshal_terminal (drained_payload id))

  unfoldable pub apply_letter : ℕ → List ℕ → Waiting → Option Waiting
  apply_letter kind body v =
      if kind == kind_dead_letter
      then elim (j.unmarshal_letter body) as (λ _. Option Waiting) [
        | none ↦ none
        | some p ↦ some (see_letter v p)
      ]
      else if kind == kind_dead_letter_drained
      then elim (j.unmarshal_terminal body) as (λ _. Option Waiting) [
        | none ↦ none
        | some p ↦ some (drain_letter v p)
      ]
      else some v

  -- The letters that wait, and the file without its torn tail; `none` where there is no file.
  unfoldable pub replay_dead_letters :
      Option (List ℕ) → Option (List PendingDeadLetter × Option (List ℕ))
  replay_dead_letters none = some ([], none)
  replay_dead_letters (some file) =
      elim (replay_loop apply_letter (suc (length file)) file 0 none_waiting)
        as (λ _. Option (List PendingDeadLetter × Option (List ℕ))) [
          | none ↦ none
          | some (v, good) ↦ some (letters_in v.live v.order, some (take good file))
        ]

  -- The new file takes the old one's place.
  unfoldable pub compact_dead_letters : List PendingDeadLetter → Option (List ℕ)
  compact_dead_letters [] = some []
  compact_dead_letters (d ∷ ds) = elim (j.marshal_letter (letter_payload d.slot d.msg)) [
    | none ↦ none
    | some body ↦ elim (compact_dead_letters ds) [
      | none ↦ none
      | some bytes ↦ some (encode kind_dead_letter body ++ bytes)
    ]
  ]
