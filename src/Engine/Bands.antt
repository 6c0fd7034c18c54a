-- ===== src/Engine/Bands.antt =====
-- backend/queue/logic/engine/slot.go: which group is listed in which priority band.
use ryuk_dpq.Base.{
  ℕ, zero, suc, ◌+◌, String, true, false, not, ◌&&◌, ◌||◌, Option, none, some, ◌==◌, if◌then◌else◌,
  update,
}
use ryuk_dpq.Base.Dict.{put, delete, lookup}
use ryuk_dpq.Engine.Deque.{Deque, empty_deque, len, empty, push_back, pop_front, front}
use ryuk_dpq.Engine.Message.{Message, message_zero, add64, group}
use ryuk_dpq.Engine.State.{Slot, Group, BandEntry, entry_zero, new_group, set_band, clear_band}

unfoldable pub set_group : Slot → ℕ → Group → Slot
set_group s a g = record s { store = update s.store a g }

or_empty : Option (Deque BandEntry) → Deque BandEntry
or_empty none = empty_deque
or_empty (some d) = d

-- The group is listed at the back of the band of its head.
unfoldable pub list_group : Slot → ℕ → Message → Slot
unfolding or_empty
list_group s a m =
    let g = s.store a in
    let v = add64 g.version 1 in
    let s1 = set_group s a (record g { version = v; band = m.priority; in_band = true }) in
    let d = push_back (or_empty (s.bands m.priority)) (record { g = a; ver = v }) in
    set_band (record s1 { bands = update s1.bands m.priority (some d) }) m.priority

unfoldable pub push_group : Slot → ℕ → Slot
push_group s a = elim (front (s.store a).msgs) [
  | none ↦ s
  | some m ↦ if (s.store a).locked then s else list_group s a m
]

unfoldable pub drop_band : Slot → ℕ → Slot
drop_band s p = clear_band (record s { bands = update s.bands p none }) p

unfoldable pub leave_band : Slot → ℕ → Slot
leave_band s a = set_group s a (record (s.store a) { in_band = false })

unfoldable pub keep_band : Slot → ℕ → Deque BandEntry → Slot
keep_band s p d = record s { bands = update s.bands p (some d) }

-- A popped entry that names a group to serve ends the search.
unfoldable pub found_group : Slot → ℕ → ℕ → Deque BandEntry → Option ℕ × Slot
found_group s p a d = (some a, if empty d then drop_band s p else s)

-- Pops entries until one is current, unlocked and has messages. The fuel is the entries and one.
unfoldable pub take_loop : ℕ → Slot → ℕ → Deque BandEntry → Option ℕ × Slot
take_loop zero s p d = (none, drop_band s p)
take_loop (suc f) s p d =
    let (o, d') = pop_front d in
    elim o [
      | none ↦ (none, drop_band s p)
      | some e ↦
          let s1 = keep_band s p d' in
          let s2 = leave_band s1 e.g in
          let stale = take_loop f s1 p d' in
          let skipped = take_loop f s2 p d' in
          if not (e.ver == (s.store e.g).version)
          then stale
          else if (s.store e.g).locked || empty (s.store e.g).msgs
          then skipped
          else found_group s2 p e.g d'
    ]

unfoldable pub take_group : Slot → ℕ → Option ℕ × Slot
take_group s p = elim (s.bands p) [
  | none ↦ (none, clear_band s p)
  | some d ↦ take_loop (suc (len d)) s p d
]

unfoldable pub drop_group_if_idle : Slot → ℕ → Slot
drop_group_if_idle s a =
    let g = s.store a in
    if not g.locked && empty g.msgs && not g.in_band
    then record s { groups = delete g.id s.groups }
    else s

-- The group of a key, created where the map has none.
unfoldable pub group_for : Slot → String → ℕ × Slot
group_for s gid = elim (lookup gid s.groups) [
  | some a ↦ (a, s)
  | none ↦ (
    s.fresh,
    record s {
      groups = put gid s.fresh s.groups;
      store = update s.store s.fresh (new_group gid);
      fresh = s.fresh + 1;
    },
  )
]

unfoldable pub append_message : Slot → ℕ → Message → Slot
append_message s a m =
    let g = s.store a in
    let s1 = set_group s a (record g { msgs = push_back g.msgs m }) in
    if not g.locked && not g.in_band then push_group s1 a else s1

unfoldable pub admit : Slot → Message → Slot
admit s m = let (a, s1) = group_for s (group m) in append_message s1 a m

unfoldable pub unlock : Slot → ℕ → Slot
unlock s a =
    let s1 = set_group s a (record (s.store a) { locked = false }) in
    if empty (s.store a).msgs
    then drop_group_if_idle s1 a
    else if not (s.store a).in_band
    then push_group s1 a
    else s1
