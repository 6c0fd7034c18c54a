-- ===== src/Engine/Queue/Slots.antt =====
-- backend/queue/logic/engine/queue.go: which slot a message lands in, and what the map of slots keeps.
use ryuk_dpq.Base.{
  ℕ, zero, suc, ◌+◌, ◌*◌, ◌%◌, ◌^◌, ◌<◌, ◌≤◌, ◌≡◌, refl, String, false, not, ◌&&◌, some, List, [],
  ◌∷◌, arith, ◌==◌, ltb, if◌then◌else◌, if_cases, str_eq, Bool-cases, inl, inr,
}
use ryuk_dpq.Base.Int.{ℤ}
use ryuk_dpq.Slotting.{count_for, slot_for-lt}
use ryuk_dpq.Engine.Message.{add64}
use native.Mathlib.Nat.{mod-lt, mod-le}
use ryuk_dpq.Engine.State.{Slot}
use ryuk_dpq.Engine.Queue.{
  Queue, exceeds, msgs_per_slot_target, fanout_loop, fanout, slot_count, find_slot, put_slot,
  slot_for,
}

-- A slot that is written is found under its identifier, and no other slot is changed.
pub find_slot-put_slot :
    (i : ℕ) (s : Slot) (ss : List Slot)
    → find_slot i (put_slot s ss) ≡ (if s.id == i then some s else find_slot i ss)
unfolding find_slot put_slot
find_slot-put_slot i s [] = refl
find_slot-put_slot i s (t ∷ ts) = ground (arith, find_slot-put_slot i s ts)

-- The fan-out is enough: all slots are in use, or no slot in use would hold too many.
abbrev pub IsEnough : ℕ → ℕ → ℤ → Type 0
IsEnough w n d = (ltb w n && exceeds d (w * msgs_per_slot_target)) ≡ false

fanout_loop-IsEnough :
    (f want n : ℕ) (d : ℤ) → 1 ≤ want → n ≤ want + f → IsEnough (fanout_loop f want n d) n d
unfolding fanout_loop
fanout_loop-IsEnough zero want n d p h = ground arith
fanout_loop-IsEnough (suc f) want n d p h =
    elim (Bool-cases (ltb want n && exceeds d (want * msgs_per_slot_target))) [
      | inl e ↦
          rw (fanout_loop, e) (fanout_loop-IsEnough f (want * 2) n d (omega arith) (omega arith))
      | inr e ↦ rw (fanout_loop, e) e
    ]

unfoldable doubled : ℕ → ℕ → ℕ
doubled zero w = w
doubled (suc k) w = doubled k (w * 2)

le-doubled : (k w : ℕ) → w ≤ doubled k w
unfolding doubled
le-doubled zero w = omega arith
le-doubled (suc k) w = omega (arith, le-doubled k (w * 2))

fanout_loop_bounds :
    (f k want n : ℕ) (d : ℤ)
    → 1 ≤ want
    → n ≡ doubled k want
    → (1 ≤ fanout_loop f want n d) × (fanout_loop f want n d ≤ n)
unfolding fanout_loop doubled
fanout_loop_bounds zero k want n d p h = (p, omega (arith, le-doubled k want))
fanout_loop_bounds (suc f) zero want n d p h = ground arith
fanout_loop_bounds (suc f) (suc k) want n d p h =
    if_cases (λ x. (1 ≤ x) × (x ≤ n)) (ltb want n && exceeds d (want * msgs_per_slot_target))
      (λ _. fanout_loop_bounds f k (want * 2) n d (omega arith) h)
      (λ _. (p, omega (arith, le-doubled (suc k) want)))

module _ {F : Type 0} (q : Queue F) where
  -- The fan-out is between one slot and all of them. It stops short of all only where each slot in
  -- use holds at most its target; the loop has the fuel to get there.
  pub fanout_correct :
      let w = fanout q (slot_count q) in
      (1 ≤ w) × (w ≤ slot_count q) × IsEnough w (slot_count q) q.depth
  unfolding fanout slot_count count_for doubled
  fanout_correct = elim (Bool-cases q.conf.distributed) [
    | inl e ↦
        rw (e, slot_count)
          (with_bounds 64 (fanout_loop_bounds 64 6 1 64 q.depth (omega arith) refl))
    | inr e ↦
        rw (e, slot_count)
          (with_bounds 16 (fanout_loop_bounds 16 4 1 16 q.depth (omega arith) refl))
  ]
    where
      with_bounds :
          (n : ℕ)
          → (1 ≤ fanout_loop n 1 n q.depth) × (fanout_loop n 1 n q.depth ≤ n)
          → let w = fanout_loop n 1 n q.depth in (1 ≤ w) × (w ≤ n) × IsEnough w n q.depth
      with_bounds n (a, b) = (a, b, fanout_loop-IsEnough n 1 n q.depth (omega arith) (omega arith))

  -- Every message resolves to a slot that the queue scans: one with a group by its hash, any other by
  -- the round over the slots in use.
  pub slot_for_in_range : (group_id : String) → (slot_for q group_id).0 < slot_count q
  unfolding slot_for slot_count
  slot_for_in_range group_id =
      if_cases (λ (x : ℕ × Queue F). x.0 < slot_count q) (not (str_eq group_id ""))
        (λ _. slot_for-lt q.conf.key.org q.conf.key.name group_id q.conf.distributed)
        (λ _.
          let (low, high, enough) = fanout_correct in
          mod_bound (add64 q.rr 1) (fanout q (slot_count q)) (slot_count q) low high)
    where
      mod_bound : (a w n : ℕ) → 1 ≤ w → w ≤ n → a % w % 2 ^ 16 < n
      mod_bound a w n p h = omega (arith, mod-lt a p, mod-le (a % w) (2 ^ 16))
