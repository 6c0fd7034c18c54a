-- ===== src/Engine/Message.antt =====
-- backend/queue/logic/engine/message.go, priority.go, errors.go and journal.go: what the engine
-- passes around. A time.Time is its distance in nanoseconds from the zero time, which is 0; a
-- time.Duration is a signed integer. Identifiers and group keys are only compared.
use ryuk_dpq.Base.{
  ◌≡◌, ℕ, suc, ◌+◌, ◌-◌, ◌%◌, ◌^◌, String, Bool, not, ◌&&◌, Option, none, some, List, [], ltb, leb,
  ◌==◌, if◌then◌else◌, str_eq,
}
use ryuk_dpq.Base.Int.{ℤ, pos, negsuc}
use ryuk_dpq.Engine.Deque.{Zero}

-- uint64 and uint32 increments.
abbrev pub add64 : ℕ → ℕ → ℕ
add64 a b = (a + b) % 2 ^ 64

abbrev pub add32 : ℕ → ℕ → ℕ
add32 a b = (a + b) % 2 ^ 32

abbrev pub max_uint64 : ℕ
max_uint64 = 2 ^ 64 - 1

pub record QueueKey : Type 0 where
  pub org : String
  pub name : String

pub record Message : Type 0 where
  pub id : String
  pub payload : List ℕ
  pub priority : ℕ
  pub group_id : String
  pub seq : ℕ
  pub enqueued_at : ℕ
  pub expires_at : ℕ
  pub deliver_after : ℕ
  pub attempts : ℕ

-- A nil message.
instance abbrev pub message_zero : Zero Message
message_zero = record {
  zero_value = record {
    id = "";
    payload = [];
    priority = 0;
    group_id = "";
    seq = 0;
    enqueued_at = 0;
    expires_at = 0;
    deliver_after = 0;
    attempts = 0;
  };
}

-- `t.IsZero()`, `t.Before(u)`, `t.After(u)` and `t.Add(d)`.
abbrev pub is_zero_time : ℕ → Bool
is_zero_time t = t == 0

abbrev pub before : ℕ → ℕ → Bool
before t u = ltb t u

abbrev pub after : ℕ → ℕ → Bool
after t u = ltb u t

abbrev pub add_time : ℕ → ℤ → ℕ
add_time t (pos d) = t + d
add_time t (negsuc d) = t - suc d

unfoldable pub expired : Message → ℕ → Bool
expired m now = not (is_zero_time m.expires_at) && not (before now m.expires_at)

-- An ungrouped message is its own group.
unfoldable pub group : Message → String
group m = if not (str_eq m.group_id "") then m.group_id else m.id

pub record Receipt : Type 0 where
  pub slot : ℕ
  pub message_id : String
  pub epoch : ℕ
  pub incarnation : ℕ

abbrev pub max_priority : ℕ
max_priority = 100

unfoldable pub priority_valid : ℕ → Bool
priority_valid p = leb p max_priority

unfoldable pub priority_string : ℕ → String
priority_string p = if leb p 33 then "LOW" else if leb p 66 then "MEDIUM" else "HIGH"

unfoldable pub bucket_of : ℕ → ℕ
bucket_of p = if leb p 33 then 0 else if leb p 66 then 1 else 2

unfoldable pub parse_priority : String → Option ℕ
parse_priority s =
    if str_eq s "LOW"
    then some 25
    else if str_eq s "low"
    then some 25
    else if str_eq s "MEDIUM"
    then some 50
    else if str_eq s "medium"
    then some 50
    else if str_eq s "HIGH"
    then some 75
    else if str_eq s "high"
    then some 75
    else none

pub data EngineError : Type 0 where
  not_in_flight lease_expired bad_priority queue_full frozen_queue bad_slot : EngineError

pub data TerminalKind : Type 0 where
  terminal_ack terminal_expired terminal_dead_lettered : TerminalKind

pub data Result {ℓ} (A : Type ℓ) : Type ℓ where
  ok : A → Result A
  err : EngineError → Result A

pub ok-injective {ℓ} : {A : Type ℓ} {a b : A} → ok a ≡ ok b → a ≡ b
ok-injective h = cc
