-- ===== src/Engine/Deliver.antt =====
-- backend/queue/logic/engine/slot.go: a message comes in, is leased, and is acknowledged.
use ryuk_dpq.Base.{ℕ, zero, suc, true, not, ◌&&◌, Option, none, some, ◌==◌, if◌then◌else◌}
use ryuk_dpq.Base.Int.{ℤ}
use ryuk_dpq.Base.Dict.{put, delete, lookup}
use ryuk_dpq.Engine.Deque.{len, pop_front}
use ryuk_dpq.Engine.Message.{
  Message, message_zero, Receipt, Result, ok, err, not_in_flight, lease_expired, add64, add32,
  add_time, after, expired, is_zero_time,
}
use ryuk_dpq.Engine.Heaps.{push_timer, push_delay}
use ryuk_dpq.Engine.State.{
  Slot, Lease, MsgState, absent, ready, in_flight, delayed, move, refresh_hint,
}
use ryuk_dpq.Engine.Bands.{set_group, take_group, drop_group_if_idle, admit, unlock}

unfoldable pub hold : Slot → Message → MsgState → Slot
hold s m from =
    move (record s { delayed = push_delay (record { msg = m; at = m.deliver_after }) s.delayed }) m
      from delayed

unfoldable pub enqueue : Slot → Message → ℕ → Slot
enqueue s m now =
    let s1 = record s { st = record (s.st) { enqueued = add64 s.st.enqueued 1 } } in
    if not (is_zero_time m.deliver_after) && after m.deliver_after now
    then hold s1 m absent
    else refresh_hint (admit (move s1 m absent ready) m)

unfoldable pub drop_expired : Slot → Message → Slot
drop_expired s m =
    let s1 = move s m ready absent in
    record s1 { st = record (s1.st) { expired = add64 s1.st.expired 1 } }

-- Pops messages of a group until one has not expired. The fuel is the messages and one.
unfoldable pub pop_live : ℕ → Slot → ℕ → ℕ → Option Message × Slot
pop_live zero s a now = (none, s)
pop_live (suc f) s a now =
    let (o, d) = pop_front (s.store a).msgs in
    elim o [
      | none ↦ (none, s)
      | some m ↦
          let s1 = set_group s a (record (s.store a) { msgs = d }) in
          let rest = pop_live f (drop_expired s1 m) a now in
          if expired m now then rest else (some m, s1)
    ]

-- The message is leased: its group is locked until the lease ends.
unfoldable pub lend : Slot → ℕ → Message → ℕ → ℤ → Message × Receipt × Slot
lend s a m now vis =
    let m' = record m { attempts = add32 m.attempts 1 } in
    let epoch = add64 s.epoch_seq 1 in
    let deadline = add_time now vis in
    let s1 = set_group s a (record (s.store a) { locked = true }) in
    let s2 = record s1 {
      epoch_seq = epoch;
      inflight =
          put m.id (record { msg = m'; g = a; epoch = epoch; deadline = deadline }) s.inflight;
      timers = push_timer (record { id = m.id; epoch = epoch; at = deadline }) s.timers;
    } in
    (
      m',
      record { slot = s.id; message_id = m.id; epoch = epoch; incarnation = 0 },
      refresh_hint (move s2 m' ready in_flight),
    )

unfoldable pub take_from : Slot → ℕ → ℕ → ℤ → Option (Message × Receipt) × Slot
take_from s a now vis =
    let (o, s1) = pop_live (suc (len (s.store a).msgs)) s a now in
    elim o [
      | none ↦ (none, refresh_hint (drop_group_if_idle s1 a))
      | some m ↦ let (out, r, s2) = lend s1 a m now vis in (some (out, r), s2)
    ]

unfoldable pub take : Slot → ℕ → ℕ → ℤ → Option (Message × Receipt) × Slot
take s p now vis =
    let (o, s1) = take_group s p in
    elim o [ none ↦ (none, refresh_hint s1) | some a ↦ take_from s1 a now vis ]

unfoldable pub settle : Slot → Receipt → Lease → Slot
settle s r l =
    let s1 = move (record s { inflight = delete r.message_id s.inflight }) l.msg in_flight absent in
    let s2 = record s1 { st = record (s1.st) { acked = add64 s1.st.acked 1 } } in
    refresh_hint (unlock s2 l.g)

unfoldable pub ack : Slot → Receipt → Result Slot
ack s r = elim (lookup r.message_id s.inflight) [
  | none ↦ err not_in_flight
  | some l ↦ if not (l.epoch == r.epoch) then err lease_expired else ok (settle s r l)
]
