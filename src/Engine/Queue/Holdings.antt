-- ===== src/Engine/Queue/Holdings.antt =====
-- What the slots of a queue hold, and a slot that is fetched and written back.
use ryuk_dpq.Base.{
  ℕ, ◌+◌, ◌≡◌, refl, sym, ap, ◌∙◌, Option, none, some, List, [], ◌∷◌, arith, inl, inr,
  if◌then◌else◌, if_cases, Option-cases, ◌==◌,
}
use ryuk_dpq.Engine.Message.{Message}
use ryuk_dpq.Engine.State.{Slot, new_slot}
use ryuk_dpq.Engine.Accounts.{
  ready_total, flight_total, delayed_total, held, IsWellFormed, IsGauged,
}
use ryuk_dpq.Engine.Queue.{Queue, find_slot, put_slot, slot}
use ryuk_dpq.Engine.Queue.Slots.{find_slot-put_slot}
use ryuk_dpq.Engine.Queue.Admission.{AreSound, put_slot-AreSound, new_slot-InOrder}

-- What the slot with this identifier holds, by a measure; a slot that is not there holds nothing.
unfoldable pub held_at : (Message → ℕ) → Option Slot → ℕ
held_at w none = 0
held_at w (some s) = held w s

abbrev pub held_in : (Message → ℕ) → ℕ → List Slot → ℕ
held_in w i ss = held_at w (find_slot i ss)

find_slot-id : (i : ℕ) (ss : List Slot) (s : Slot) → find_slot i ss ≡ some s → s.id ≡ i
unfolding find_slot
find_slot-id i [] s h = cc
find_slot-id i (t ∷ ts) s h = ground (arith, find_slot-id i ts s)

pub held_in-put_slot :
    (w : Message → ℕ) (i : ℕ) (s : Slot) (ss : List Slot)
    → held_in w i (put_slot s ss) ≡ (if s.id == i then held w s else held_in w i ss)
unfolding held_at
held_in-put_slot w i s ss =
    ap (held_at w) (find_slot-put_slot i s ss)
    ∙ if_cases (λ x. held_at w x ≡ (if s.id == i then held w s else held_in w i ss)) (s.id == i)
        (λ e. rw e refl) (λ e. rw e refl)

-- No group, lease or delay stands in a new slot.
held-new_slot : (w : Message → ℕ) (i : ℕ) → held w (new_slot i) ≡ 0
unfolding new_slot ready_total flight_total delayed_total
held-new_slot w i = refl

-- To make a slot that is not there changes nothing that is held.
held_in-new_slot :
    (w : Message → ℕ) (i j : ℕ) (ss : List Slot)
    → find_slot i ss ≡ none
    → held_in w j (put_slot (new_slot i) ss) ≡ held_in w j ss
unfolding held_at new_slot
held_in-new_slot w i j ss e =
    held_in-put_slot w j (new_slot i) ss
    ∙ if_cases (λ x. x ≡ held_in w j ss) (i == j)
        (λ h.
          let same : i ≡ j = ground (arith, h) in
          held-new_slot w i ∙ sym (ap (held_at w) (ap (λ k. find_slot k ss) (sym same) ∙ e)))
        (λ h. refl)

-- A slot that is fetched: it has its number, is sound, and holds what the queue has for it.
pub record Fetched {F : Type 0} (q : Queue F) (i : ℕ) (r : Slot × Queue F) : Type 0 where
  pub number : r.0.id ≡ i
  pub sound : AreSound q.slots → IsWellFormed r.0 × IsGauged r.0
  pub kept : AreSound q.slots → AreSound r.1.slots
  pub here : (w : Message → ℕ) → held w r.0 ≡ held_in w i q.slots
  pub others : (w : Message → ℕ) (j : ℕ) → held_in w j r.1.slots ≡ held_in w j q.slots
  pub frame : r.1 ≡ record q { slots = r.1.slots }

module _ {F : Type 0} where
  pub slot-Fetched : (q : Queue F) (i : ℕ) → Fetched q i (slot q i)
  unfolding slot held_at new_slot
  slot-Fetched q i = elim (Option-cases (find_slot i q.slots)) [
    | inl e ↦
        rw (e, slot)
          record {
            number = refl;
            sound = λ v. ((new_slot-InOrder i).well, (new_slot-InOrder i).gauged);
            kept = λ v.
                put_slot-AreSound q.slots (new_slot i) v
                  ((new_slot-InOrder i).well, (new_slot-InOrder i).gauged);
            here = λ w. rw e (held-new_slot w i);
            others = λ w j. held_in-new_slot w i j q.slots e;
            frame = refl;
          }
    | inr (s, e) ↦
        rw (e, slot)
          record {
            number = find_slot-id i q.slots s e;
            sound = λ v. v i s e;
            kept = λ v. v;
            here = λ w. rw e refl;
            others = λ w j. refl;
            frame = refl;
          }
  ]

  -- A fetched slot is written back with this much more.
  pub held_in-written :
      (q : Queue F) (i : ℕ) (t : Slot) (w : Message → ℕ) (j n : ℕ)
      → t.id ≡ i
      → held w t ≡ held_in w i q.slots + n
      → held_in w j (put_slot t (slot q i).1.slots)
        ≡ held_in w j q.slots + (if i == j then n else 0)
  held_in-written q i t w j n e h =
      let put = held_in-put_slot w j t (slot q i).1.slots in
      let others = (slot-Fetched q i).others w j in
      if_cases (λ x. held_in w j (put_slot t (slot q i).1.slots) ≡ held_in w j q.slots + x) (i == j)
        (λ same.
          let k : i ≡ j = ground (arith, same) in
          put
          ∙ ap (λ b. if b then held w t else held_in w j (slot q i).1.slots)
              (ap (λ x. x == j) e ∙ same)
          ∙ h
          ∙ ap (λ x. held_in w x q.slots + n) k)
        (λ other.
          put
          ∙ ap (λ b. if b then held w t else held_in w j (slot q i).1.slots)
              (ap (λ x. x == j) e ∙ other)
          ∙ omega (arith, others))
