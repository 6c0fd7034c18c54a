-- ===== src/Engine/Accounts/Search.antt =====
-- Searching a band of the slot in slot.go: what the slot holds, and what is found.
use ryuk_dpq.Base.{
  ℕ, zero, suc, ◌≡◌, refl, sym, ◌∙◌, ap, false, Option, none, some, ◌⊎◌, inl, inr, ◌==◌, Bool-cases,
  Option-cases,
}
use ryuk_dpq.Engine.Deque.{Deque, empty, pop_front, len}
use ryuk_dpq.Engine.Message.{message_zero}
use ryuk_dpq.Engine.State.{Slot, BandEntry, entry_zero}
use ryuk_dpq.Engine.Bands.{leave_band, keep_band, found_group, take_loop, take_group}
use ryuk_dpq.Engine.Accounts.Same.{
  Same-refl, Same-trans, Same, drop_band-Same, clear_band-Same, leave_band-Same, keep_band-Same,
}

-- What a search of the bands finds: the slot holds the same, and a group that is found is unlocked
-- and has messages.
abbrev pub Takes : Slot → Option ℕ × Slot → Type 0
Takes s r =
    Same s r.1
    × ((r.0 ≡ none)
        ⊎ ((a : ℕ) × (r.0 ≡ some a)
            × ((s.store a).locked ≡ false)
            × (empty (s.store a).msgs ≡ false)))

Takes-Same : {s t : Slot} (r : Option ℕ × Slot) → Same s t → Takes t r → Takes s r
Takes-Same r e (f, inl n) = (Same-trans e f, inl n)
Takes-Same r e (f, inr (a, h, l, m)) =
    (Same-trans e f, inr (a, h, sym (e.locked a) ∙ l, ap empty (sym (e.msgs a)) ∙ m))

found_group-Takes :
    (s : Slot) (p a : ℕ) (d : Deque BandEntry)
    → (s.store a).locked ≡ false
    → empty (s.store a).msgs ≡ false
    → Takes s (found_group s p a d)
unfolding found_group
found_group-Takes s p a d l m = elim (Bool-cases (empty d)) [
  | inl e ↦ rw e (drop_band-Same s p, inr (a, refl, l, m))
  | inr e ↦ rw e (Same-refl s, inr (a, refl, l, m))
]

take_loop-Takes : (f : ℕ) (s : Slot) (p : ℕ) (d : Deque BandEntry) → Takes s (take_loop f s p d)
unfolding take_loop
take_loop-Takes zero s p d = (drop_band-Same s p, inl refl)
take_loop-Takes (suc f) s p d = elim (Option-cases (pop_front d).0) [
  | inl e ↦ rw (e, take_loop) (drop_band-Same s p, inl refl)
  | inr (b, e) ↦
      let d' = (pop_front d).1 in
      let s1 = keep_band s p d' in
      let s2 = leave_band s1 b.g in
      let kept = keep_band-Same s p d' in
      let left = Same-trans kept (leave_band-Same s1 b.g) in
      elim (Bool-cases (b.ver == (s.store b.g).version)) [
        | inr old ↦ rw (e, take_loop, old) (Takes-Same _ kept (take_loop-Takes f s1 p d'))
        | inl now ↦ elim (Bool-cases (s.store b.g).locked) [
          | inl l ↦ rw (e, take_loop, now, l) (Takes-Same _ left (take_loop-Takes f s2 p d'))
          | inr l ↦ elim (Bool-cases (empty (s.store b.g).msgs)) [
            | inl m ↦ rw (e, take_loop, now, l, m) (Takes-Same _ left (take_loop-Takes f s2 p d'))
            | inr m ↦
                rw (e, take_loop, now, l, m)
                  (Takes-Same _ left (
                    found_group-Takes s2 p b.g d' (left.locked b.g ∙ l)
                      (ap empty (left.msgs b.g) ∙ m)))
          ]
        ]
      ]
]

-- Searching a band leaves all that the slot holds as it was, and finds either nothing or an unlocked
-- group that has messages.
pub take_group-Takes : (s : Slot) (p : ℕ) → Takes s (take_group s p)
unfolding take_group
take_group-Takes s p = elim (Option-cases (s.bands p)) [
  | inl e ↦ rw (e, take_group) (clear_band-Same s p, inl refl)
  | inr (d, e) ↦ rw (e, take_group) (take_loop-Takes (suc (len d)) s p d)
]
