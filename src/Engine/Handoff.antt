-- ===== src/Engine/Handoff.antt =====
-- backend/queue/logic/engine/sweep.go: the copy of a slot for a handoff, and its drain.
use ryuk_dpq.Base.{ℕ, zero, suc, String, false, none, some, List, [], ◌∷◌, ◌++◌, ltb, if◌then◌else◌}
use ryuk_dpq.Engine.Deque.{Deque, len, pop_front, all}
use ryuk_dpq.Engine.Message.{Message, message_zero}
use ryuk_dpq.Engine.State.{Slot, Group, Lease, reset_gauges, refresh_hint}
use ryuk_dpq.Engine.Heaps.{DelayEntry}
use ryuk_dpq.Engine.Bands.{set_group}

unfoldable pub lease_msgs : List (String × Lease) → List Message
lease_msgs [] = []
lease_msgs ((k, l) ∷ ls) = l.msg ∷ lease_msgs ls

unfoldable pub group_msgs : (ℕ → Group) → List (String × ℕ) → List Message
group_msgs store [] = []
group_msgs store ((gid, a) ∷ gs) = all (store a).msgs ++ group_msgs store gs

unfoldable pub delay_msgs : List DelayEntry → List Message
delay_msgs [] = []
delay_msgs (e ∷ es) = e.msg ∷ delay_msgs es

-- Everything the slot holds, without removing it.
unfoldable pub copy_all : Slot → List Message
copy_all s = lease_msgs s.inflight ++ group_msgs s.store s.groups ++ delay_msgs s.delayed

-- sort.Slice by Seq, as an insertion sort.
unfoldable pub insert_by_seq : Message → List Message → List Message
insert_by_seq m [] = m ∷ []
insert_by_seq m (x ∷ xs) = if ltb x.seq m.seq then x ∷ insert_by_seq m xs else m ∷ x ∷ xs

unfoldable pub sort_by_seq : List Message → List Message
sort_by_seq [] = []
sort_by_seq (m ∷ ms) = insert_by_seq m (sort_by_seq ms)

-- Pops a group until it is empty. The fuel is the messages and one.
unfoldable pub drain_deque : ℕ → Deque Message → List Message × Deque Message
drain_deque zero d = ([], d)
drain_deque (suc f) d =
    let (o, d') = pop_front d in
    elim o [ none ↦ ([], d) | some m ↦ let (rest, e) = drain_deque f d' in (m ∷ rest, e) ]

unfoldable pub drain_groups : List (String × ℕ) → Slot → List Message × Slot
drain_groups [] s = ([], s)
drain_groups ((gid, a) ∷ gs) s =
    let (ms, d) = drain_deque (suc (len (s.store a).msgs)) (s.store a).msgs in
    let (rest, s1) = drain_groups gs (set_group s a (record (s.store a) { msgs = d })) in
    (ms ++ rest, s1)

-- Removes every message and returns them in Seq order.
unfoldable pub drain : Slot → List Message × Slot
drain s =
    let (grouped, s1) = drain_groups s.groups s in
    let out = lease_msgs s.inflight ++ grouped ++ delay_msgs s.delayed in
    let s2 = record s1 {
      delayed = [];
      inflight = [];
      groups = [];
      bands = λ _. none;
      mask = λ _ _. false;
      timers = [];
      st = reset_gauges s1.st;
    } in
    (sort_by_seq out, refresh_hint s2)
