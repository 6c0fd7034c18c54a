-- ===== src/Engine/State.antt =====
-- backend/queue/logic/engine/slot.go, group.go and stats.go: the state of a slot and its gauges.
-- The code shares a group by pointer among the group map, the band entries and the leases; here a
-- group stands in a store under its address. A message is in one place at a time and is a value.
-- A word of the band mask is the function from a bit's position to the bit.
use ryuk_dpq.Base.{
  ℕ, zero, suc, ◌+◌, ◌/◌, ◌%◌, String, Bool, true, false, not, ◌||◌, Option, none, some, List, [],
  ltb, ◌==◌, if◌then◌else◌, update, length,
}
use ryuk_dpq.Base.Int.{ℤ, pos, ◌+ℤ◌, ◌-ℤ◌}
use ryuk_dpq.Engine.Deque.{Zero, Deque, empty_deque, len, front, at}
use ryuk_dpq.Engine.Message.{Message, message_zero, bucket_of, max_uint64}
use ryuk_dpq.Engine.Heaps.{TimerEntry, DelayEntry}

pub record Group : Type 0 where
  pub id : String
  pub msgs : Deque Message
  pub locked : Bool
  pub in_band : Bool
  pub band : ℕ
  pub version : ℕ

pub record BandEntry : Type 0 where
  pub g : ℕ
  pub ver : ℕ

instance abbrev pub entry_zero : Zero BandEntry
entry_zero = record { zero_value = record { g = 0; ver = 0 } }

pub record Lease : Type 0 where
  pub msg : Message
  pub g : ℕ
  pub epoch : ℕ
  pub deadline : ℕ

pub record SlotStats : Type 0 where
  pub ready : ℕ → ℤ
  pub inflight : ℤ
  pub delayed : ℤ
  pub bytes : ℤ
  pub enqueued : ℕ
  pub acked : ℕ
  pub expired : ℕ
  pub requeued : ℕ
  pub dead_lettered : ℕ

pub record Slot : Type 0 where
  pub id : ℕ
  pub mask : ℕ → ℕ → Bool
  pub bands : ℕ → Option (Deque BandEntry)
  pub groups : List (String × ℕ)
  pub store : ℕ → Group
  pub fresh : ℕ
  pub inflight : List (String × Lease)
  pub timers : List TimerEntry
  pub delayed : List DelayEntry
  pub epoch_seq : ℕ
  pub st : SlotStats
  pub hint : ℕ
  pub head_seq : ℕ
  pub frozen : Bool

unfoldable pub new_group : String → Group
new_group gid = record {
  id = gid;
  msgs = empty_deque;
  locked = false;
  in_band = false;
  band = 0;
  version = 0;
}

abbrev pub zero_stats : SlotStats
zero_stats = record {
  ready = λ _. pos 0;
  inflight = pos 0;
  delayed = pos 0;
  bytes = pos 0;
  enqueued = 0;
  acked = 0;
  expired = 0;
  requeued = 0;
  dead_lettered = 0;
}

unfoldable pub new_slot : ℕ → Slot
new_slot id = record {
  id = id;
  mask = λ _ _. false;
  bands = λ _. none;
  groups = [];
  store = λ _. new_group "";
  fresh = 0;
  inflight = [];
  timers = [];
  delayed = [];
  epoch_seq = 0;
  st = zero_stats;
  hint = 0;
  head_seq = max_uint64;
  frozen = false;
}

unfoldable pub set_band : Slot → ℕ → Slot
set_band s p = record s { mask = update s.mask (p / 64) (update (s.mask (p / 64)) (p % 64) true) }

unfoldable pub clear_band : Slot → ℕ → Slot
clear_band s p = record s {
  mask = update s.mask (p / 64) (update (s.mask (p / 64)) (p % 64) false);
}

-- The position of the highest set bit below `n`: 63 less the leading zeros of a word, at 64.
unfoldable pub highest_bit : ℕ → (ℕ → Bool) → Option ℕ
highest_bit zero word = none
highest_bit (suc n) word = if word n then some n else highest_bit n word

high_band : Option ℕ → Option ℕ → Option ℕ
high_band (some b) low = some (64 + b)
high_band none low = low

unfoldable pub highest_band : Slot → Option ℕ
unfolding high_band
highest_band s = high_band (highest_bit 64 (s.mask 1)) (highest_bit 64 (s.mask 0))

-- The first deliverable entry among the `n` entries from position `i`.
unfoldable pub scan_heads : Slot → Deque BandEntry → ℕ → ℕ → Option Message
scan_heads s d zero i = none
scan_heads s d (suc n) i =
    let rest = scan_heads s d n (i + 1) in
    elim (at d i) [
      | none ↦ none
      | some e ↦
          if not (e.ver == (s.store e.g).version) || (s.store e.g).locked
          then rest
          else elim (front (s.store e.g).msgs) [ none ↦ rest | some m ↦ some m ]
    ]

unfoldable pub head_message : Slot → ℕ → Option Message
unfolding scan_heads
head_message s p = elim (s.bands p) [
  | none ↦ none
  | some d ↦ scan_heads s d (if ltb 8 (len d) then 8 else len d) 0
]

head_seq_of : Option Message → ℕ
head_seq_of none = max_uint64
head_seq_of (some m) = m.seq

unfoldable pub refresh_hint : Slot → Slot
unfolding head_seq_of
refresh_hint s = elim (highest_band s) [
  | none ↦ record s { hint = 0; head_seq = max_uint64 }
  | some p ↦ record s { hint = p + 1; head_seq = head_seq_of (head_message s p) }
]

pub data MsgState : Type 0 where
  absent ready in_flight delayed : MsgState

unfoldable pub leave : MsgState → Message → SlotStats → SlotStats
leave ready m t =
    let b = bucket_of m.priority in record t { ready = update t.ready b (t.ready b -ℤ pos 1) }
leave in_flight m t = record t { inflight = t.inflight -ℤ pos 1 }
leave delayed m t = record t { delayed = t.delayed -ℤ pos 1 }
leave absent m t = record t { bytes = t.bytes +ℤ pos (length m.payload) }

unfoldable pub arrive : MsgState → Message → SlotStats → SlotStats
arrive ready m t =
    let b = bucket_of m.priority in record t { ready = update t.ready b (t.ready b +ℤ pos 1) }
arrive in_flight m t = record t { inflight = t.inflight +ℤ pos 1 }
arrive delayed m t = record t { delayed = t.delayed +ℤ pos 1 }
arrive absent m t = record t { bytes = t.bytes -ℤ pos (length m.payload) }

-- Both sides of a transition.
unfoldable pub move : Slot → Message → MsgState → MsgState → Slot
move s m from to = record s { st = arrive to m (leave from m s.st) }

unfoldable pub reset_gauges : SlotStats → SlotStats
reset_gauges t = record t { ready = λ _. pos 0; inflight = pos 0; delayed = pos 0; bytes = pos 0 }
