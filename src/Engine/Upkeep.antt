-- ===== src/Engine/Upkeep.antt =====
-- backend/queue/logic/engine/queue.go (Sweep, Stats) and slot.go (stats): the timers of every slot,
-- and the figures that are reported.
use ryuk_dpq.Base.{
  ℕ, ◌+◌, ◌-◌, ◌%◌, ◌^◌, String, Bool, not, none, some, List, [], ◌∷◌, ◌++◌, map, ltb,
  if◌then◌else◌,
}
use ryuk_dpq.Base.Int.{ℤ, pos, negsuc, ◌+ℤ◌, ◌-ℤ◌}
use ryuk_dpq.Engine.Deque.{front}
use ryuk_dpq.Engine.Message.{Message, terminal_dead_lettered, add64, expired}
use ryuk_dpq.Engine.State.{Slot, Group}
use ryuk_dpq.Engine.Timers.{sweep_leases, sweep_ttl, release_delayed}
use ryuk_dpq.Engine.Queue.{Queue, JournalEntry, terminal_entry}

pub record SweepResult : Type 0 where
  pub redelivered : ℕ
  pub expired : ℕ
  pub released : ℕ
  pub dead_lettered : List (ℕ × Message)
  pub removed : ℕ

-- The three timers of one slot, in the code's order. What is removed is the growth of its counters.
unfoldable pub sweep_slot : Slot → ℕ → ℕ → Bool → SweepResult × Slot
sweep_slot s now max_retries dead_letter =
    let gone = s.st.expired + s.st.dead_lettered in
    let (released, s1) = release_delayed s now in
    let swept = sweep_leases s1 now max_retries dead_letter in
    let (old, s2) = sweep_ttl swept.slot now in
    (
      record {
        redelivered = swept.requeued;
        expired = old;
        released = released;
        dead_lettered = map (λ m. (s.id, m)) swept.dead;
        removed = (s2.st.expired + s2.st.dead_lettered + 2 ^ 64 - gone % 2 ^ 64) % 2 ^ 64;
      },
      s2,
    )

add_result : SweepResult → SweepResult → SweepResult
add_result a b = record {
  redelivered = a.redelivered + b.redelivered;
  expired = a.expired + b.expired;
  released = a.released + b.released;
  dead_lettered = a.dead_lettered ++ b.dead_lettered;
  removed = a.removed + b.removed;
}

abbrev no_result : SweepResult
no_result = record { redelivered = 0; expired = 0; released = 0; dead_lettered = []; removed = 0 }

-- A frozen slot is skipped: its messages are being moved.
unfoldable pub sweep_slots : List Slot → ℕ → ℕ → Bool → SweepResult × List Slot
unfolding add_result
sweep_slots [] now max_retries dead_letter = (no_result, [])
sweep_slots (s ∷ ss) now max_retries dead_letter =
    let (r, s1) = sweep_slot s now max_retries dead_letter in
    let (rest, ss1) = sweep_slots ss now max_retries dead_letter in
    if s.frozen then (rest, s ∷ ss1) else (add_result r rest, s1 ∷ ss1)

dead_entries : List (ℕ × Message) → List JournalEntry
dead_entries [] = []
dead_entries ((i, m) ∷ ds) = dead_entries ds ++ terminal_entry i m.id terminal_dead_lettered ∷ []

-- The depth falls by what was removed, never to a recount.
unfoldable pub sweep : {F : Type 0} → Queue F → ℕ → SweepResult × Queue F
unfolding dead_entries
sweep q now =
    let (r, ss) = sweep_slots q.slots now q.conf.max_retries q.conf.has_dead_letter in
    (
      r,
      record q {
        slots = ss;
        depth = q.depth -ℤ pos r.removed;
        journal = dead_entries r.dead_lettered ++ q.journal;
      },
    )

pub record Stats : Type 0 where
  pub ready : ℕ → ℤ
  pub in_flight : ℤ
  pub delayed : ℤ
  pub bytes : ℤ
  pub oldest_age : ℕ
  pub top_ready : ℤ
  pub enqueued : ℕ
  pub acked : ℕ
  pub expired : ℕ
  pub requeued : ℕ
  pub dead_lettered : ℕ
  pub escapes : ℕ

-- `p > top` for the int16 of the highest ready priority, which is -1 where nothing is ready.
raise : ℕ → ℤ → ℤ
raise p (pos n) = if ltb n p then pos p else pos n
raise p (negsuc n) = pos p

-- The oldest front of the groups, and the highest priority that an unlocked group can serve now.
-- An age is not below 0, where an older message is one with a greater age.
unfoldable pub scan_groups : (ℕ → Group) → List (String × ℕ) → ℕ → ℕ × ℤ → ℕ × ℤ
unfolding raise
scan_groups store [] now acc = acc
scan_groups store ((gid, a) ∷ gs) now (age, top) =
    scan_groups store gs now (elim (front (store a).msgs) [
      | none ↦ (age, top)
      | some m ↦ if expired m now then (age, top) else (
        (if ltb age (now - m.enqueued_at) then now - m.enqueued_at else age),
        (if not (store a).locked then raise m.priority top else top),
      )
    ])

unfoldable pub slot_stats : Slot → ℕ → Stats
slot_stats s now =
    let (age, top) = scan_groups s.store s.groups now (0, negsuc 0) in
    record {
      ready = s.st.ready;
      in_flight = s.st.inflight;
      delayed = s.st.delayed;
      bytes = s.st.bytes;
      oldest_age = age;
      top_ready = top;
      enqueued = s.st.enqueued;
      acked = s.st.acked;
      expired = s.st.expired;
      requeued = s.st.requeued;
      dead_lettered = s.st.dead_lettered;
      escapes = 0;
    }

higher : ℤ → ℤ → ℤ
higher (pos n) t = raise n t
higher (negsuc n) t = t

add_stats : Stats → Stats → Stats
add_stats t st = record {
  ready = λ b. t.ready b +ℤ st.ready b;
  in_flight = t.in_flight +ℤ st.in_flight;
  delayed = t.delayed +ℤ st.delayed;
  bytes = t.bytes +ℤ st.bytes;
  oldest_age = if ltb t.oldest_age st.oldest_age then st.oldest_age else t.oldest_age;
  top_ready = higher st.top_ready t.top_ready;
  enqueued = add64 t.enqueued st.enqueued;
  acked = add64 t.acked st.acked;
  expired = add64 t.expired st.expired;
  requeued = add64 t.requeued st.requeued;
  dead_lettered = add64 t.dead_lettered st.dead_lettered;
  escapes = t.escapes;
}

unfoldable pub sum_stats : List Slot → ℕ → Stats → Stats
unfolding add_stats higher raise
sum_stats [] now acc = acc
sum_stats (s ∷ ss) now acc = sum_stats ss now (add_stats acc (slot_stats s now))

abbrev pub no_stats : Stats
no_stats = record {
  ready = λ _. pos 0;
  in_flight = pos 0;
  delayed = pos 0;
  bytes = pos 0;
  oldest_age = 0;
  top_ready = negsuc 0;
  enqueued = 0;
  acked = 0;
  expired = 0;
  requeued = 0;
  dead_lettered = 0;
  escapes = 0;
}

unfoldable pub stats : {F : Type 0} → Queue F → ℕ → Stats
stats q now = let t = sum_stats q.slots now no_stats in record t { escapes = q.escapes }
