-- ===== src/Wire.antt =====
-- backend/queue/entity/req-queue.go: what a gateway sends with each request, and a message as it goes
-- from node to node. A pointer that may be nil is an option; the JSON of a request is not modelled.
pub mod Receipts
pub mod Fields
mod Tests
use ryuk_dpq.Base.{
  ℕ, zero, suc, ◌≡◌, refl, String, Bool, true, not, Option, none, some, List, ◌==◌, if◌then◌else◌,
  arith,
}
use ryuk_dpq.Base.Int.{ℤ}
use ryuk_dpq.Engine.Message.{QueueKey, Message, is_zero_time}
use ryuk_dpq.Engine.Config.{Config}

pub record QueueSpec (F : Type 0) : Type 0 where
  pub org : String
  pub name : String
  pub visibility_timeout : ℤ
  pub max_retries : ℕ
  pub default_ttl : ℤ
  pub starvation_threshold : ℤ
  pub starvation_reserve : F
  pub starvation_avoidance_enabled : Bool
  pub max_depth : ℤ
  pub distributed : Bool
  pub has_dead_letter : Bool
  pub generation : ℕ

unfoldable pub spec_key : {F : Type 0} → QueueSpec F → QueueKey
spec_key s = record { org = s.org; name = s.name }

unfoldable pub engine_config : {F : Type 0} → QueueSpec F → Config F
engine_config s = record {
  key = spec_key s;
  visibility_timeout = s.visibility_timeout;
  max_retries = s.max_retries;
  max_retries_set = true;
  default_ttl = s.default_ttl;
  starvation_threshold = s.starvation_threshold;
  starvation_reserve = s.starvation_reserve;
  starvation_avoidance_enabled = s.starvation_avoidance_enabled;
  max_depth = s.max_depth;
  distributed = s.distributed;
  has_dead_letter = s.has_dead_letter;
}

pub record WireMessage : Type 0 where
  pub id : String
  pub payload : List ℕ
  pub priority : ℕ
  pub group_id : String
  pub seq : ℕ
  pub enqueued_at : ℕ
  pub expires_at : Option ℕ
  pub deliver_after : Option ℕ
  pub attempts : ℕ

abbrev pub time_pointer : ℕ → Option ℕ
time_pointer t = if not (is_zero_time t) then some t else none

abbrev pub time_at : Option ℕ → ℕ
time_at none = 0
time_at (some t) = t

unfoldable pub to_wire : Message → WireMessage
to_wire m = record {
  id = m.id;
  payload = m.payload;
  priority = m.priority;
  group_id = m.group_id;
  seq = m.seq;
  enqueued_at = m.enqueued_at;
  expires_at = time_pointer m.expires_at;
  deliver_after = time_pointer m.deliver_after;
  attempts = m.attempts;
}

unfoldable pub from_wire : WireMessage → Message
from_wire w = record {
  id = w.id;
  payload = w.payload;
  priority = w.priority;
  group_id = w.group_id;
  seq = w.seq;
  enqueued_at = w.enqueued_at;
  expires_at = time_at w.expires_at;
  deliver_after = time_at w.deliver_after;
  attempts = w.attempts;
}

time_at-time_pointer : (t : ℕ) → time_at (time_pointer t) ≡ t
time_at-time_pointer zero = refl
time_at-time_pointer (suc t) = ground arith

-- A message that is handed to another node arrives as it left: its attempts, its times and its number
-- with it.
pub from_wire-to_wire : (m : Message) → from_wire (to_wire m) ≡ m
unfolding from_wire to_wire
from_wire-to_wire m =
    rw (time_at-time_pointer m.expires_at, time_at-time_pointer m.deliver_after) refl
