-- ===== src/Engine/Timers.antt =====
-- backend/queue/logic/engine/sweep.go: what happens to a lease that ends, and the three timers.
use ryuk_dpq.Base.{
  ℕ, zero, suc, ◌+◌, String, Bool, true, false, not, ◌&&◌, Option, none, some, List, [], ◌∷◌, ◌++◌,
  leb, ltb, ◌==◌, if◌then◌else◌,
}
use ryuk_dpq.Base.Int.{ℤ, is_positive}
use ryuk_dpq.Base.Dict.{delete, lookup}
use ryuk_dpq.Engine.Deque.{len, empty, pop_front, push_front, front}
use ryuk_dpq.Engine.Message.{
  Message, message_zero, Receipt, Result, ok, err, not_in_flight, lease_expired, add64, add_time,
  after, expired,
}
use ryuk_dpq.Engine.Heaps.{TimerEntry, DelayEntry}
use ryuk_dpq.Engine.State.{Slot, Lease, absent, ready, in_flight, delayed, move, refresh_hint}
use ryuk_dpq.Engine.Bands.{set_group, push_group, drop_group_if_idle, admit, unlock}
use ryuk_dpq.Engine.Deliver.{hold, drop_expired}

-- What `retire` returns: the message to dead-letter, whether one went back, and the slot.
pub record Retired : Type 0 where
  pub dead : Option Message
  pub back : Bool
  pub slot : Slot

unfoldable pub count_expired : Slot → Slot
count_expired s = record s { st = record (s.st) { expired = add64 s.st.expired 1 } }

unfoldable pub count_dead : Slot → Slot
count_dead s = record s { st = record (s.st) { dead_lettered = add64 s.st.dead_lettered 1 } }

unfoldable pub count_requeued : Slot → Slot
count_requeued s = record s { st = record (s.st) { requeued = add64 s.st.requeued 1 } }

unfoldable pub put_back : Slot → ℕ → Message → Slot
put_back s a m =
    let g = s.store a in
    move (set_group s a (record g { msgs = push_front g.msgs m })) m in_flight ready

-- The lease has left the map already. The deferred unlock runs last, on every path.
unfoldable pub retire : Slot → Lease → ℕ → ℕ → ℤ → Bool → Retired
retire s l now max_retries delay dead_letter =
    let m = l.msg in
    let later = record m { deliver_after = add_time now delay } in
    if expired m now
    then record {
      dead = none;
      back = false;
      slot = unlock (count_expired (move s m in_flight absent)) l.g;
    }
    else if leb max_retries m.attempts && dead_letter
    then record {
      dead = some m;
      back = false;
      slot = unlock (count_dead (move s m in_flight absent)) l.g;
    }
    else if is_positive delay
    then record {
      dead = none;
      back = true;
      slot = unlock (count_requeued (hold s later in_flight)) l.g;
    }
    else record { dead = none; back = true; slot = unlock (count_requeued (put_back s l.g m)) l.g }

unfoldable pub nack : Slot → Receipt → ℤ → ℕ → ℕ → Bool → Result (Option Message × Slot)
nack s r delay now max_retries dead_letter = elim (lookup r.message_id s.inflight) [
  | none ↦ err not_in_flight
  | some l ↦
      if not (l.epoch == r.epoch)
      then err lease_expired
      else let s1 = record s { inflight = delete r.message_id s.inflight } in
        let out = retire s1 l now max_retries delay dead_letter in
        ok (out.dead, refresh_hint out.slot)
]

pub record Swept : Type 0 where
  pub dead : List Message
  pub requeued : ℕ
  pub slot : Slot

to_list : Option Message → List Message
to_list none = []
to_list (some m) = m ∷ []

unfoldable pub add_retired : Swept → Retired → Swept
unfolding to_list
add_retired w out = record {
  dead = w.dead ++ to_list out.dead;
  requeued = if out.back then w.requeued + 1 else w.requeued;
  slot = out.slot;
}

-- One due timer that was popped: a stale one is skipped, a current one ends its lease.
unfoldable pub fire_timer : Swept → TimerEntry → ℕ → ℕ → Bool → Swept
fire_timer w e now max_retries dead_letter = elim (lookup e.id w.slot.inflight) [
  | none ↦ w
  | some l ↦
      if not (l.epoch == e.epoch)
      then w
      else let s1 = record (w.slot) { inflight = delete e.id w.slot.inflight } in
        add_retired w (retire s1 l now max_retries (ℤ.pos 0) dead_letter)
]

unfoldable pub fire_timers : List TimerEntry → Swept → ℕ → ℕ → Bool → Swept
fire_timers [] w now max_retries dead_letter = w
fire_timers (e ∷ ts) w now max_retries dead_letter =
    let popped = record w { slot = record (w.slot) { timers = ts } } in
    let rest =
      fire_timers ts (fire_timer popped e now max_retries dead_letter) now max_retries
        dead_letter in
    if after e.at now then w else rest

unfoldable pub sweep_leases : Slot → ℕ → ℕ → Bool → Swept
sweep_leases s now max_retries dead_letter =
    let w =
      fire_timers s.timers (record { dead = []; requeued = 0; slot = s }) now max_retries
        dead_letter in
    record w { slot = refresh_hint w.slot }

-- Drops the expired messages at the head of a group. The fuel is the messages and one.
unfoldable pub drop_heads : ℕ → Slot → ℕ → ℕ → ℕ × Slot
drop_heads zero s a now = (0, s)
drop_heads (suc f) s a now = elim (front (s.store a).msgs) [
  | none ↦ (0, s)
  | some m ↦
      let s1 = set_group s a (record (s.store a) { msgs = (pop_front (s.store a).msgs).1 }) in
      let rest = drop_heads f (drop_expired s1 m) a now in
      if not (expired m now) then (0, s) else (rest.0 + 1, rest.1)
]

-- A group whose head went is listed anew, at the priority of its new head.
unfoldable pub relist : Slot → ℕ → ℕ → Slot
relist s a dropped =
    let g = s.store a in
    let s1 =
      if ltb 0 dropped && g.in_band
      then set_group s a (record g { version = add64 g.version 1; in_band = false })
      else s in
    let g1 = s1.store a in
    if not g1.in_band && not g1.locked && not (empty g1.msgs) then push_group s1 a else s1

unfoldable pub sweep_group : Slot → ℕ → ℕ → ℕ × Slot
sweep_group s a now =
    let (n, s1) = drop_heads (suc (len (s.store a).msgs)) s a now in
    (n, drop_group_if_idle (relist s1 a n) a)

unfoldable pub sweep_groups : List (String × ℕ) → Slot → ℕ → ℕ × Slot
sweep_groups [] s now = (0, s)
sweep_groups ((gid, a) ∷ gs) s now =
    let (n, s1) = sweep_group s a now in let (k, s2) = sweep_groups gs s1 now in (n + k, s2)

unfoldable pub sweep_ttl : Slot → ℕ → ℕ × Slot
sweep_ttl s now = let (n, s1) = sweep_groups s.groups s now in (n, refresh_hint s1)

unfoldable pub release_one : Slot → DelayEntry → Slot
release_one s e = let m = record (e.msg) { deliver_after = 0 } in admit (move s m delayed ready) m

unfoldable pub release_loop : List DelayEntry → Slot → ℕ → ℕ × Slot
release_loop [] s now = (0, s)
release_loop (e ∷ ts) s now =
    let rest = release_loop ts (release_one (record s { delayed = ts }) e) now in
    if after e.at now then (0, s) else (rest.0 + 1, rest.1)

unfoldable pub release_delayed : Slot → ℕ → ℕ × Slot
release_delayed s now =
    let (n, s1) = release_loop s.delayed s now in (n, if ltb 0 n then refresh_hint s1 else s1)
