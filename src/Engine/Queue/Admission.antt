-- ===== src/Engine/Queue/Admission.antt =====
-- backend/queue/logic/engine/queue.go: EnqueueToSlot, on every path.
use ryuk_dpq.Base.Dict.{lookup}
use ryuk_dpq.Base.{
  Option-cases, ap, sym, ◌∙◌, ℕ, zero, suc, ◌≡◌, ◌≢◌, refl, String, Bool, true, false, not, ◌&&◌,
  Option, none, some, List, ◌∷◌, arith, ◌==◌, leb, if_cases, inl, inr, ◌⊎◌,
}
use ryuk_dpq.Base.Int.{ℤ, pos, negsuc, ◌+ℤ◌, ◌-ℤ◌, is_positive}
use ryuk_dpq.Engine.Deque.Laws.{empty_deque-IsValid, all-empty_deque}
use ryuk_dpq.Engine.Message.{Message, EngineError, Result, ok, err, priority_valid}
use ryuk_dpq.Engine.State.{Slot, new_slot, new_group}
use ryuk_dpq.Engine.Deliver
use ryuk_dpq.Engine.Accounts.{IsWellFormed, IsGauged, ready_total, flight_total, delayed_total}
use ryuk_dpq.Engine.Lifecycle.Enqueue.{enqueue_correct}
use ryuk_dpq.Engine.Lifecycle.Take.{InOrder}
use ryuk_dpq.Engine.Queue.{
  Queue, EnqueueOptions, enqueue_entry, slot_count, find_slot, put_slot, next_seq, slot, write_slot,
  build_message, land, give_back, enqueue_to_slot,
}
use ryuk_dpq.Engine.Queue.Slots.{find_slot-put_slot}

none_ne : {A : Type 0} {a : A} → none ≡ some a → ⊥
none_ne h = cc

none_err : {A : Type 0} {a : A} {x : EngineError} → some (err x) ≡ some (ok a) → ⊥
none_err h = cc

-- A new slot holds nothing, and is in order.
pub new_slot-InOrder : (i : ℕ) → InOrder (new_slot i)
unfolding new_slot new_group lookup ready_total flight_total delayed_total
new_slot-InOrder i = record {
  well = record {
    valid = λ a. empty_deque-IsValid Message;
    keyed = tt;
    named = tt;
    below = tt;
    listed = λ a. inl (all-empty_deque Message);
    leases_keyed = tt;
    locks = λ k l h. absurd (none_ne h);
    lists = λ k l h. absurd (none_ne h);
    apart = λ j k l n h. absurd (none_ne h);
    ids = λ k l h. absurd (none_ne h);
  };
  gauged = record { ready = λ b. refl; inflight = refl; delayed = refl; bytes = refl };
  unique = λ k. omega arith;
}

-- A claim that is given back leaves the claims as they were.
claim_returned : (r : ℤ) → r +ℤ pos 1 -ℤ pos 1 ≡ r
unfolding ◌+ℤ◌ ◌-ℤ◌
claim_returned (pos n) = ground arith
claim_returned (negsuc zero) = ground arith
claim_returned (negsuc (suc n)) = ground arith

-- Every slot of the queue is well formed, with correct gauges.
abbrev pub AreSound : List Slot → Type 0
AreSound ss = (i : ℕ) (s : Slot) → find_slot i ss ≡ some s → IsWellFormed s × IsGauged s

negated : (b : Bool) → not b ≡ false → b ≡ true
negated b h = ground arith

pub put_slot-AreSound :
    (ss : List Slot) (s : Slot)
    → AreSound ss
    → IsWellFormed s × IsGauged s
    → AreSound (put_slot s ss)
put_slot-AreSound ss s all_sound sound i t e =
    if_cases (λ x. x ≡ some t → IsWellFormed t × IsGauged t) (s.id == i)
      (λ _ p. let q : s ≡ t = some-injective p in rw (← q) sound) (λ _ p. all_sound i t p)
      (sym (find_slot-put_slot i s ss) ∙ e)
  where
    some-injective : {A : Type 0} {a b : A} → some a ≡ some b → a ≡ b
    some-injective h = cc

module _ {F : Type 0} where
  -- What an enqueue ends in. Refused, it leaves the depth, the claims and the log as they were, and at
  -- most makes the slot. Landed, it met no guard, and there is one message more: numbered, logged and
  -- in its slot.
  pub data Enqueued (q : Queue F) (i : ℕ) (o : EnqueueOptions) (now : ℕ)
      : Option (Result Message) × Queue F → Type 0 where
    refused :
        (x : Option (Result Message)) (u : Queue F)
        → ((m : Message) → x ≢ some (ok m))
        → u.depth ≡ q.depth
        → u.reserved ≡ q.reserved
        → u.journal ≡ q.journal
        → (u.slots ≡ q.slots) ⊎ (u.slots ≡ (slot q i).1.slots)
        → Enqueued q i o now (x, u)
    landed :
        (m : Message) (u : Queue F)
        → q.frozen ≡ false
        → (slot q i).0.frozen ≡ false
        → leb (slot_count q) i ≡ false
        → priority_valid o.priority ≡ true
        → (is_positive q.conf.max_depth
            && is_positive (q.depth +ℤ (q.reserved +ℤ pos 1) -ℤ q.conf.max_depth))
          ≡ false
        → u.depth ≡ q.depth +ℤ pos 1
        → u.reserved ≡ q.reserved
        → u.seq ≡ next_seq q
        → m.seq ≡ next_seq q
        → u.journal ≡ enqueue_entry i m ∷ q.journal
        → u.slots ≡ put_slot (Deliver.enqueue (slot q i).0 m now) (slot q i).1.slots
        → Enqueued q i o now (some (ok m), u)

  -- The slot is found or made, whatever the claims are.
  slot_cases :
      (q : Queue F) (i : ℕ)
      → (s : Slot) × (ss : List Slot) × ((r : ℤ)
          → slot (record q { reserved = r }) i ≡ (s, record q { reserved = r; slots = ss }))
  unfolding slot
  slot_cases q i = elim (Option-cases (find_slot i q.slots)) [
    | inl e ↦ (new_slot i, put_slot (new_slot i) q.slots, λ r. rw (e, slot) refl)
    | inr (s, e) ↦ (s, q.slots, λ r. rw (e, slot) refl)
  ]

  -- EnqueueToSlot either refuses, with the depth, the claims and the log as they were; or it passed every
  -- guard, and the message is numbered, logged, counted and enqueued into its slot.
  pub enqueue_to_slot_correct :
      (q : Queue F) (i : ℕ) (o : EnqueueOptions) (now : ℕ) (new_id : String) (logged : Bool)
      → Enqueued q i o now (enqueue_to_slot q i o now new_id logged)
  unfolding enqueue_to_slot land give_back write_slot slot_count next_seq
  enqueue_to_slot_correct q i o now new_id logged =
      let (s, ss, e) = slot_cases q i in
      let e0 : slot q i ≡ (s, record q { slots = ss }) = e q.reserved in
      let back = claim_returned q.reserved in
      rw (e (q.reserved +ℤ pos 1)) (
        if_cases (Enqueued q i o now) q.frozen
          (λ _. refused _ _ (λ m p. none_err p) refl refl refl (inl refl))
          (λ f.
            if_cases (Enqueued q i o now) (leb (slot_count q) i)
              (λ _. refused _ _ (λ m p. none_err p) refl refl refl (inl refl))
              (λ b.
                if_cases (Enqueued q i o now) (not (priority_valid o.priority))
                  (λ _. refused _ _ (λ m p. none_err p) refl refl refl (inl refl))
                  (λ v.
                    if_cases (Enqueued q i o now)
                      (is_positive q.conf.max_depth
                        && is_positive (q.depth +ℤ (q.reserved +ℤ pos 1) -ℤ q.conf.max_depth))
                      (λ _. refused _ _ (λ m p. none_err p) refl back refl (inl refl))
                      (λ d.
                        if_cases (Enqueued q i o now) s.frozen
                          (λ _.
                            refused _ _ (λ m p. none_err p) refl back refl
                              (inr (ap (λ x. x.1.slots) (sym e0))))
                          (λ g.
                            if_cases (Enqueued q i o now) (not logged)
                              (λ _.
                                refused none _ (λ m p. none_ne p) refl back refl
                                  (inr (ap (λ x. x.1.slots) (sym e0))))
                              (λ w.
                                let m = record (build_message q o now new_id) {
                                  seq = next_seq q;
                                } in
                                landed m _ f (ap (λ x. x.0.frozen) e0 ∙ g) b (negated _ v) d refl
                                  back refl refl refl
                                  (ap (λ x. put_slot (Deliver.enqueue x.0 m now) x.1.slots)
                                    (sym e0)))))))))

  pub slot-AreSound :
      (q : Queue F) (i : ℕ)
      → AreSound q.slots
      → (IsWellFormed (slot q i).0 × IsGauged (slot q i).0) × AreSound (slot q i).1.slots
  unfolding slot
  slot-AreSound q i a = elim (Option-cases (find_slot i q.slots)) [
    | inl e ↦
        let o = new_slot-InOrder i in
        rw (e, slot)
          ((o.well, o.gauged), put_slot-AreSound q.slots (new_slot i) a (o.well, o.gauged))
    | inr (s, e) ↦ rw (e, slot) (a i s e, a)
  ]

  -- Where every slot of the queue is well formed with correct gauges, so it is after EnqueueToSlot,
  -- however it ends.
  pub enqueue_to_slot-AreSound :
      (q : Queue F) (i : ℕ) (o : EnqueueOptions) (now : ℕ) (new_id : String) (logged : Bool)
      → AreSound q.slots
      → AreSound (enqueue_to_slot q i o now new_id logged).1.slots
  enqueue_to_slot-AreSound q i o now new_id logged a =
      after _ (enqueue_to_slot_correct q i o now new_id logged)
    where
      after : (r : Option (Result Message) × Queue F) → Enqueued q i o now r → AreSound r.1.slots
      after r (refused x u n d c j (inl e)) = rw e a
      after r (refused x u n d c j (inr e)) = rw e (slot-AreSound q i a).1
      after r (landed m u f g b v d p c n k j e) =
          let (s, ss) = slot-AreSound q i a in
          let (w, x, h) = enqueue_correct (slot q i).0 m now s.0 s.1 in
          rw e (put_slot-AreSound (slot q i).1.slots _ ss (w, x))
