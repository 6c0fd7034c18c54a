-- ===== src/Engine/Queue.antt =====
-- backend/queue/logic/engine/queue.go: a queue of slots; enqueue, ack and nack. Each call is one
-- step here. The slots are kept by identifier, which
-- is the order of the code's local view; the code's other loops run over them in the order of a Go
-- map, which is any order. The clock's time, a new identifier and the answer of the log are arguments;
-- what is appended to the log is kept in order, newest first.
pub mod Slots
pub mod Admission
pub mod Holdings
pub mod Settlement
use ryuk_dpq.Base.{
  ℕ, zero, suc, ◌+◌, ◌*◌, ◌/◌, ◌%◌, ◌^◌, ◌≤◌, ◌<◌, ◌≡◌, refl, String, Bool, true, false, not, ◌&&◌,
  ◌||◌, Option, none, some, List, [], ◌∷◌, ◌++◌, arith, ◌==◌, ltb, leb, if◌then◌else◌, str_eq,
  length,
}
use ryuk_dpq.Base.Int.{ℤ, pos, negsuc, ◌+ℤ◌, ◌-ℤ◌, is_positive}
use ryuk_dpq.Slotting.{count_for}
use ryuk_dpq.Slotting
use ryuk_dpq.Engine.Message.{
  Message, QueueKey, Receipt, TerminalKind, terminal_ack, terminal_dead_lettered, EngineError,
  lease_expired, bad_priority, queue_full, frozen_queue, bad_slot, Result, ok, err, add64, add_time,
  priority_valid,
}
use ryuk_dpq.Engine.State.{Slot, new_slot}
use ryuk_dpq.Engine.Deliver
use ryuk_dpq.Engine.Timers
use ryuk_dpq.Engine.Config.{Floats, Config, apply_defaults}

pub record EnqueueOptions : Type 0 where
  pub payload : List ℕ
  pub priority : ℕ
  pub group_id : String
  pub ttl : ℤ
  pub deliver_after : ℤ

-- What the queue hands to its journal.
pub data JournalEntry : Type 0 where
  enqueue_entry : ℕ → Message → JournalEntry
  attempt_entry : ℕ → String → ℕ → ℕ → JournalEntry
  terminal_entry : ℕ → String → TerminalKind → JournalEntry

pub record Queue (F : Type 0) : Type 0 where
  pub conf : Config F
  pub slots : List Slot
  pub incarnation : ℕ
  pub seq : ℕ
  pub dispatched : ℕ
  pub rr : ℕ
  pub cursor : ℕ
  pub depth : ℤ
  pub reserved : ℤ
  pub escapes : ℕ
  pub frozen : Bool
  pub journal : List JournalEntry

abbrev pub generation_shift : ℕ
generation_shift = 40

abbrev pub msgs_per_slot_target : ℕ
msgs_per_slot_target = 1000

-- `k < d` for an int64 `d`.
abbrev pub exceeds : ℤ → ℕ → Bool
exceeds (pos d) k = ltb k d
exceeds (negsuc d) k = false

unfoldable pub find_slot : ℕ → List Slot → Option Slot
find_slot i [] = none
find_slot i (s ∷ ss) = if s.id == i then some s else find_slot i ss

-- Replaces the slot with this identifier, or adds it in its place in the order.
unfoldable pub put_slot : Slot → List Slot → List Slot
put_slot s [] = s ∷ []
put_slot s (t ∷ ts) =
    if t.id == s.id then s ∷ ts else if ltb s.id t.id then s ∷ t ∷ ts else t ∷ put_slot s ts

-- The slots that a group-less message may land in double while a slot would hold too many.
unfoldable pub fanout_loop : ℕ → ℕ → ℕ → ℤ → ℕ
fanout_loop zero want n d = want
fanout_loop (suc f) want n d =
    let wider = fanout_loop f (want * 2) n d in
    if ltb want n && exceeds d (want * msgs_per_slot_target) then wider else want

-- A TTL of 0 is the queue's own.
ttl_or : ℤ → ℤ → ℤ
ttl_or (pos zero) d = d
ttl_or (pos (suc n)) d = pos (suc n)
ttl_or (negsuc n) d = negsuc n

module _ {F : Type 0} where
  unfoldable pub slot_count : Queue F → ℕ
  slot_count q = count_for q.conf.distributed

  unfoldable pub next_seq : Queue F → ℕ
  next_seq q = add64 q.seq 1

  unfoldable pub generation : Queue F → ℕ
  generation q = q.seq / 2 ^ generation_shift

  unfoldable pub adopt_seq : Queue F → ℕ → Queue F
  adopt_seq q seq = if leb seq q.seq then q else record q { seq = seq }

  -- The slot with this identifier, made where there is none.
  unfoldable pub slot : Queue F → ℕ → Slot × Queue F
  slot q i = elim (find_slot i q.slots) [
    | some s ↦ (s, q)
    | none ↦ (new_slot i, record q { slots = put_slot (new_slot i) q.slots })
  ]

  unfoldable pub write_slot : Queue F → Slot → Queue F
  write_slot q s = record q { slots = put_slot s q.slots }

  unfoldable pub fanout : Queue F → ℕ → ℕ
  unfolding fanout_loop
  fanout q n = fanout_loop n 1 n q.depth

  -- A group keeps its slot; other messages go round the slots in use.
  unfoldable pub slot_for : Queue F → String → ℕ × Queue F
  slot_for q group_id =
      let rr = add64 q.rr 1 in
      if not (str_eq group_id "")
      then (Slotting.slot_for q.conf.key.org q.conf.key.name group_id (slot_count q), q)
      else (rr % fanout q (slot_count q) % 2 ^ 16, record q { rr = rr })

  unfoldable pub build_message : Queue F → EnqueueOptions → ℕ → String → Message
  unfolding ttl_or
  build_message q o now new_id =
      let ttl = ttl_or o.ttl q.conf.default_ttl in
      record {
        id = new_id;
        payload = o.payload;
        priority = o.priority;
        group_id = o.group_id;
        seq = 0;
        enqueued_at = now;
        expires_at = if is_positive ttl then add_time now ttl else 0;
        deliver_after = if is_positive o.deliver_after then add_time now o.deliver_after else 0;
        attempts = 0;
      }

  -- The message is numbered, logged and put into its slot, under the slot's lock.
  unfoldable pub land : Queue F → ℕ → Slot → Message → ℕ → Queue F
  land q slot_id s m now =
      let numbered = record m { seq = next_seq q } in
      let q1 = record q {
        seq = next_seq q;
        journal = enqueue_entry slot_id numbered ∷ q.journal;
      } in
      let q2 = write_slot q1 (Deliver.enqueue s numbered now) in
      record q2 { depth = q.depth +ℤ pos 1; reserved = q.reserved -ℤ pos 1 }

  unfoldable pub give_back : Queue F → Queue F
  give_back q = record q { reserved = q.reserved -ℤ pos 1 }

  -- The claim on the cap is made first; a path out gives it back. `none` is the error of the log.
  unfoldable pub enqueue_to_slot :
      Queue F → ℕ → EnqueueOptions → ℕ → String → Bool → Option (Result Message) × Queue F
  enqueue_to_slot q slot_id o now new_id logged =
      let pending = q.reserved +ℤ pos 1 in
      let q1 = record q { reserved = pending } in
      let m = build_message q o now new_id in
      let (s, q2) = slot q1 slot_id in
      if q.frozen
      then (some (err frozen_queue), q)
      else if leb (slot_count q) slot_id
      then (some (err bad_slot), q)
      else if not (priority_valid o.priority)
      then (some (err bad_priority), q)
      else if is_positive q.conf.max_depth && is_positive (q.depth +ℤ pending -ℤ q.conf.max_depth)
      then (some (err queue_full), give_back q1)
      else if s.frozen
      then (some (err frozen_queue), give_back q2)
      else if not logged
      then (none, give_back (record q2 { seq = next_seq q }))
      else (some (ok (record m { seq = next_seq q })), land q2 slot_id s m now)

  unfoldable pub enqueue :
      Queue F → EnqueueOptions → ℕ → String → Bool → Option (Result Message) × Queue F
  enqueue q o now new_id logged =
      let (i, q1) = slot_for q o.group_id in enqueue_to_slot q1 i o now new_id logged

  -- The error, if there is one. The slot is made where there is none, even if the lease is refused.
  unfoldable pub ack : Queue F → Receipt → Option EngineError × Queue F
  ack q r =
      let (s, q1) = slot q r.slot in
      if not (r.incarnation == q.incarnation)
      then (some lease_expired, q)
      else elim (Deliver.ack s r) [
        | err e ↦ (some e, q1)
        | ok t ↦ (
          none,
          record (write_slot q1 t) {
            depth = q.depth -ℤ pos 1;
            journal = terminal_entry r.slot r.message_id terminal_ack ∷ q.journal;
          },
        )
      ]

  after_nack : Queue F → ℕ → Option Message → Queue F
  after_nack q i none = q
  after_nack q i (some m) = record q {
    depth = q.depth -ℤ pos 1;
    journal = terminal_entry i m.id terminal_dead_lettered ∷ q.journal;
  }

  unfoldable pub nack : Queue F → Receipt → ℤ → ℕ → Result (Option Message) × Queue F
  unfolding after_nack
  nack q r delay now =
      let (s, q1) = slot q r.slot in
      if not (r.incarnation == q.incarnation)
      then (err lease_expired, q)
      else elim (Timers.nack s r delay now q.conf.max_retries q.conf.has_dead_letter) [
        | err e ↦ (err e, q1)
        | ok (dead, t) ↦ (ok dead, after_nack (write_slot q1 t) r.slot dead)
      ]

module _ (fl : Floats) where
  unfoldable pub new_queue : Config fl.F → ℕ → ℕ → Queue fl.F
  new_queue cfg incarnation gen = record {
    conf = apply_defaults fl cfg;
    slots = [];
    incarnation = incarnation;
    seq = gen * 2 ^ generation_shift % 2 ^ 64;
    dispatched = 0;
    rr = 0;
    cursor = 0;
    depth = pos 0;
    reserved = pos 0;
    escapes = 0;
    frozen = false;
    journal = [];
  }

  -- The key stays, and a queue that is distributed stays so.
  unfoldable pub reconfigure :
      (Config fl.F → Config fl.F → Bool) → Queue fl.F → Config fl.F → Bool × Queue fl.F
  reconfigure same q c =
      let next =
        apply_defaults fl
          (record c { key = q.conf.key; distributed = q.conf.distributed || c.distributed }) in
      if same next q.conf then (false, q) else (true, record q { conf = next })
