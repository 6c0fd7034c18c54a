-- ===== src/Engine/Migrate.antt =====
-- backend/queue/logic/engine/queue.go: slots are frozen, copied, dropped, absorbed and snapshot.
pub mod Absorbed
pub mod Absorbing
pub mod Coming
pub mod Copying
pub mod Draining
pub mod Dropping
pub mod Handover
pub mod Sorting
pub mod Splitting
use ryuk_dpq.Base.{
  ℕ, ◌+◌, String, Bool, true, false, not, ◌&&◌, none, some, List, [], ◌∷◌, ◌++◌, ◌==◌, leb, ltb,
  if◌then◌else◌, length,
}
use ryuk_dpq.Base.Int.{ℤ, pos, negsuc, ◌+ℤ◌, ◌-ℤ◌}
use ryuk_dpq.Base.Dict.{lookup, put}
use ryuk_dpq.Engine.Deque.{prepend}
use ryuk_dpq.Engine.Message.{Message, add64, after, group, is_zero_time}
use ryuk_dpq.Engine.State.{Slot, absent, ready, move, refresh_hint}
use ryuk_dpq.Engine.Bands.{set_group, push_group, group_for}
use ryuk_dpq.Engine.Deliver.{hold}
use ryuk_dpq.Engine.Handoff.{copy_all, drain, sort_by_seq}
use ryuk_dpq.Engine.Queue.{Queue, slot, write_slot, slot_count, adopt_seq}

-- The messages of a move, by slot.
abbrev pub BySlot : Type 0
BySlot = List (ℕ × List Message)

unfoldable pub keep_some : ℕ → List Message → BySlot → BySlot
keep_some i [] out = out
keep_some i (m ∷ ms) out = (i, m ∷ ms) ∷ out

unfoldable pub drain_slots : List Slot → BySlot × List Slot
unfolding keep_some
drain_slots [] = ([], [])
drain_slots (s ∷ ss) =
    let (ms, s1) = drain s in let (out, ss1) = drain_slots ss in (keep_some s.id ms out, s1 ∷ ss1)

is_zero : ℤ → Bool
is_zero (pos n) = n == 0
is_zero (negsuc n) = false

-- Nothing ready in the three buckets, on lease or delayed.
unfoldable pub slot_is_empty : Slot → Bool
unfolding is_zero
slot_is_empty s =
    is_zero (s.st.ready 0 +ℤ s.st.ready 1 +ℤ s.st.ready 2)
    && is_zero s.st.inflight
    && is_zero s.st.delayed

-- The lists are in the order of the slots.
unfoldable pub frozen_ids : List Slot → List ℕ
frozen_ids [] = []
frozen_ids (s ∷ ss) = if s.frozen then s.id ∷ frozen_ids ss else frozen_ids ss

unfoldable pub held_ids : List Slot → List ℕ
held_ids [] = []
held_ids (s ∷ ss) = if not (slot_is_empty s) then s.id ∷ held_ids ss else held_ids ss

-- What Absorb does with the messages of a slot: those not yet due are apart, the others by group.
unfoldable pub split_due :
    List Message → ℕ → List (String × List Message) → List (String × List Message) × List Message
split_due [] now groups = (groups, [])
split_due (m ∷ ms) now groups =
    let later = not (is_zero_time m.deliver_after) && after m.deliver_after now in
    let found : List (String × List Message) = elim (lookup (group m) groups) [
      | none ↦ put (group m) (m ∷ []) groups
      | some list ↦ put (group m) (list ++ m ∷ []) groups
    ] in
    let (gs, held) = split_due ms now (if later then groups else found) in
    (gs, if later then m ∷ held else held)

unfoldable pub move_all : Slot → List Message → Slot
move_all s [] = s
move_all s (m ∷ ms) = move_all (move s m absent ready) ms

-- A group's messages go in front of those that are here, and the group is listed anew.
unfoldable pub absorb_group : Slot → String → List Message → Slot
absorb_group s gid list =
    let (a, s1) = group_for s gid in
    let g = s1.store a in
    let s2 = move_all (set_group s1 a (record g { msgs = prepend g.msgs list })) list in
    let g2 = s2.store a in
    let s3 = set_group s2 a (record g2 { version = add64 g2.version 1; in_band = false }) in
    if not g2.locked then push_group s3 a else s3

unfoldable pub absorb_groups : Slot → List (String × List Message) → Slot
absorb_groups s [] = s
absorb_groups s ((gid, list) ∷ gs) = absorb_groups (absorb_group s gid list) gs

unfoldable pub hold_all : Slot → List Message → Slot
hold_all s [] = s
hold_all s (m ∷ ms) = hold_all (hold s m absent) ms

unfoldable pub last_seq : List Message → ℕ
last_seq [] = 0
last_seq (m ∷ []) = m.seq
last_seq (m ∷ n ∷ ms) = last_seq (n ∷ ms)

unfoldable pub absorb_slot : Slot → List Message → ℕ → Slot
absorb_slot s msgs now =
    let (groups, held) = split_due (sort_by_seq msgs) now [] in
    refresh_hint (hold_all (absorb_groups s groups) held)

module _ {F : Type 0} where
  unfoldable pub freeze : Queue F → BySlot × Queue F
  freeze q =
      let (out, ss) = drain_slots q.slots in
      (out, record q { frozen = true; slots = ss; depth = pos 0 })

  unfoldable pub thaw : Queue F → Queue F
  thaw q = record q { frozen = false }

  unfoldable pub freeze_slots : List ℕ → Queue F → BySlot × Queue F
  unfolding keep_some
  freeze_slots [] q = ([], q)
  freeze_slots (i ∷ is) q =
      let (s, q1) = slot q i in
      let q2 = write_slot q1 (record s { frozen = true }) in
      let (out, q3) = freeze_slots is (if leb (slot_count q) i then q else q2) in
      (if leb (slot_count q) i then out else keep_some i (copy_all s) out, q3)

  unfoldable pub thaw_slots : List ℕ → Queue F → Queue F
  thaw_slots [] q = q
  thaw_slots (i ∷ is) q =
      let (s, q1) = slot q i in
      thaw_slots is
        (if ltb i (slot_count q) then write_slot q1 (record s { frozen = false }) else q)

  unfoldable pub drop_loop : List ℕ → Queue F → ℕ × Queue F
  drop_loop [] q = (0, q)
  drop_loop (i ∷ is) q =
      let (s, q1) = slot q i in
      let (ms, s1) = drain s in
      let q2 = write_slot q1 (record s1 { frozen = false }) in
      let (n, q3) = drop_loop is (if leb (slot_count q) i then q else q2) in
      (if leb (slot_count q) i then n else length ms + n, q3)

  unfoldable pub drop_slots : List ℕ → Queue F → ℕ × Queue F
  drop_slots is q = let (n, q1) = drop_loop is q in (n, record q1 { depth = q1.depth -ℤ pos n })

  unfoldable pub frozen_slots : Queue F → List ℕ
  frozen_slots q = frozen_ids q.slots

  unfoldable pub held_slots : Queue F → List ℕ
  held_slots q = held_ids q.slots

  -- Absorbs slot by slot; the count and the greatest number are for the queue.
  unfoldable pub absorb_loop : BySlot → ℕ → Queue F → ℕ × ℕ × Queue F
  absorb_loop [] now q = (0, 0, q)
  absorb_loop ((i, []) ∷ rest) now q = absorb_loop rest now q
  absorb_loop ((i, m ∷ ms) ∷ rest) now q =
      let (s, q1) = slot q i in
      let (n, top, q2) = absorb_loop rest now (write_slot q1 (absorb_slot s (m ∷ ms) now)) in
      let last = last_seq (sort_by_seq (m ∷ ms)) in
      (length (m ∷ ms) + n, (if ltb top last then last else top), q2)

  unfoldable pub absorb : BySlot → ℕ → Queue F → Queue F
  absorb by_slot now q =
      let (n, top, q1) = absorb_loop by_slot now q in
      let q2 = adopt_seq q1 top in record q2 { depth = q2.depth +ℤ pos n }

unfoldable pub snapshot_slots : List Slot → BySlot
snapshot_slots [] = []
snapshot_slots (s ∷ ss) = (s.id, sort_by_seq (copy_all s)) ∷ snapshot_slots ss

unfoldable pub snapshot : {F : Type 0} → Queue F → BySlot
snapshot q = snapshot_slots q.slots
