-- ===== src/Engine/Dispatch.antt =====
-- backend/queue/logic/engine/dispatch.go: which slot serves the next delivery. One caller at a time:
-- the hints that takeUrgent reads are those of the slots that it then locks.
pub mod Depth
use ryuk_dpq.Base.{
  ℕ, zero, suc, ◌+◌, ◌-◌, ◌*◌, ◌/◌, ◌%◌, ◌^◌, ◌<◌, ◌≤◌, ◌≡◌, Bool, true, false, not, ◌&&◌, ◌||◌,
  Option, none, some, List, [], ◌∷◌, ◌==◌, ltb, leb, if◌then◌else◌, length, get_elem?,
}
use ryuk_dpq.Base.Int.{ℤ, pos, negsuc}
use ryuk_dpq.Engine.Message.{Message, Receipt, add64, max_uint64, before}
use ryuk_dpq.Engine.State.{Slot, head_message}
use ryuk_dpq.Engine.Deliver.{take}
use ryuk_dpq.Engine.Config.{Floats, reserve_tick}
use ryuk_dpq.Engine.Queue.{Queue, JournalEntry, attempt_entry, write_slot}

abbrev pub max_dispatch_retries : ℕ
max_dispatch_retries = 4

abbrev pub starvation_scan_limit : ℕ
starvation_scan_limit = 16

-- The highest band that a slot in service offers.
unfoldable pub best_band : List Slot → Option ℕ → Option ℕ
best_band [] best = best
best_band (s ∷ ss) best = best_band ss (
    if s.frozen || s.hint == 0 then best else elim best [
      | none ↦ some (s.hint - 1)
      | some b ↦ (if ltb b (s.hint - 1) then some (s.hint - 1) else some b)
    ])

-- The better of a slot and the best so far: by band, then by the number of the head.
unfoldable pub better : Slot → Option Slot → Option Slot
better s none = some s
better s (some b) =
    if ltb b.hint s.hint || (s.hint == b.hint && ltb s.head_seq b.head_seq) then some s else some b

unfoldable pub best_slot : List Slot → Option Slot → Option Slot
best_slot [] best = best
best_slot (s ∷ ss) best = best_slot ss (if s.frozen || s.hint == 0 then best else better s best)

-- `cutoff` is so far back of now; before the zero time nothing was enqueued.
unfoldable pub back_from : ℕ → ℤ → ℕ
back_from now (pos d) = now - d
back_from now (negsuc d) = now + suc d

-- The lowest band from `p` up, of those whose bit is set, whose head has waited since before the
-- cutoff.
unfoldable pub scan_bands : Slot → ℕ → ℕ → ℕ → Option ℕ
scan_bands s cutoff zero p = none
scan_bands s cutoff (suc n) p =
    let rest = scan_bands s cutoff n (p + 1) in
    let here : Option ℕ = elim (head_message s p) [
      | none ↦ rest
      | some m ↦ (if before m.enqueued_at cutoff then some p else rest)
    ] in
    if s.mask (p / 64) (p % 64) then here else rest

unfoldable pub oldest_band_before : Slot → ℕ → Option ℕ
oldest_band_before s cutoff = scan_bands s cutoff 128 0

abbrev pub Delivered : Type 0 → Type 0
Delivered F = Option (Message × Receipt) × Queue F

module _ {F : Type 0} where
  unfoldable pub stamp : Queue F → Message × Receipt → Message × Receipt
  stamp q (m, r) = (m, record r { incarnation = q.incarnation })

  unfoldable pub after_take : Queue F → Message → Receipt → Queue F
  after_take q m r = record q { journal = attempt_entry r.slot m.id m.attempts r.epoch ∷ q.journal }

  unfoldable pub take_urgent : ℕ → Queue F → ℕ → Delivered F
  unfolding stamp
  take_urgent zero q now = (none, q)
  take_urgent (suc tries) q now = elim (best_slot q.slots none) [
    | none ↦ (none, q)
    | some s ↦
        let (o, t) = take s (s.hint - 1) now q.conf.visibility_timeout in
        let q1 = write_slot q t in
        let again = take_urgent tries q1 now in
        elim o [ none ↦ again | some out ↦ (some (stamp q out), q1) ]
  ]

  -- `n` slots are left to scan, from the `i`th after the start.
  unfoldable pub scan_starved : ℕ → ℕ → ℕ → ℕ → ℕ → Queue F → ℕ → Delivered F
  unfolding stamp
  scan_starved zero i start top cutoff q now = (none, q)
  scan_starved (suc n) i start top cutoff q now =
      let next = scan_starved n (i + 1) start top cutoff q now in
      elim (get_elem? q.slots ((start + i) % length q.slots)) [
        | none ↦ (none, q)
        | some s ↦
            let found : Delivered F = elim (oldest_band_before s cutoff) [
              | none ↦ next
              | some p ↦
                  let (o, t) = take s p now q.conf.visibility_timeout in
                  let q1 = write_slot q t in
                  let missed = scan_starved n (i + 1) start top cutoff q1 now in
                  let served : Delivered F = elim o [
                    | none ↦ missed
                    | some out ↦ (some (stamp q out), q1)
                  ] in
                  if leb top p then next else served
            ] in
            if s.frozen then next else found
      ]

  unfoldable pub take_starved : Queue F → ℕ → Delivered F
  take_starved q now = elim (best_band q.slots none) [
    | none ↦ (none, q)
    | some top ↦
        let cursor = (q.cursor + 1) % 2 ^ 32 in
        let n = length q.slots in
        let scans = if ltb starvation_scan_limit n then starvation_scan_limit else n in
        scan_starved scans 0 (cursor % n) top (back_from now q.conf.starvation_threshold)
          (record q { cursor = cursor }) now
  ]

module _ (fl : Floats) where
  unfoldable pub journaled : Delivered fl.F → Delivered fl.F
  journaled (none, q) = (none, q)
  journaled (some (m, r), q) = (some (m, r), after_take q m r)

  unfoldable pub escaped : Delivered fl.F → ℕ → Delivered fl.F
  unfolding journaled
  escaped (none, q) now = journaled (take_urgent max_dispatch_retries q now)
  escaped (some out, q) now = journaled (some out, record q { escapes = add64 q.escapes 1 })

  unfoldable pub dequeue : Queue fl.F → ℕ → Delivered fl.F
  unfolding escaped
  dequeue q now =
      let n = add64 q.dispatched 1 in
      let q1 = record q { dispatched = n } in
      if q.frozen
      then (none, q)
      else if reserve_tick fl q.conf n
      then escaped (take_starved q1 now) now
      else journaled (take_urgent max_dispatch_retries q1 now)
