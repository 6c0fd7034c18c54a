-- ===== src/Requests/Repeats.antt =====
-- An acknowledgement that is sent again.
use ryuk_dpq.Base.{
  ◌⊎◌, ℕ, ◌≡◌, refl, sym, ap, ◌∙◌, subst, String, true, false, Option, none, some, List, ◌∷◌, ◌==◌,
  Bool-cases, Option-cases, inl, inr, arith,
}
use ryuk_dpq.Base.Int.{pos, ◌-ℤ◌}
use ryuk_dpq.Engine.Message.{
  terminal_ack, Receipt, EngineError, not_in_flight, lease_expired, bad_priority, queue_full,
  frozen_queue, ok, err,
}
use ryuk_dpq.Engine.State.{Slot, new_slot}
use ryuk_dpq.Engine.Deliver
use ryuk_dpq.Engine.Deliver.{settle}
use ryuk_dpq.Engine.Lifecycle.End.{ack_twice}
use ryuk_dpq.Engine.Queue.{terminal_entry, Queue, find_slot, put_slot, slot, write_slot, ack}
use ryuk_dpq.Engine.Queue.Settlement.{Result-cases}
use ryuk_dpq.Engine.Queue.Slots.{find_slot-put_slot}
use ryuk_dpq.Engine.Queue.Admission.{AreSound, slot-AreSound}
use ryuk_dpq.Wire.Receipts.{
  Base64, Decoded, named, bad_encoding, bad_count, bad_slot, bad_epoch, bad_incarnation,
  decode_receipt,
}
use ryuk_dpq.Requests.{LiveQueue, done, receipt_of, ack_reply, ack_decoded, ack_request}
use ryuk_dpq.Requests.Numbers.{ack-id, find_slot-id}

module _ {F : Type 0} where
  slot-id : (q : Queue F) (i : ℕ) → (slot q i).0.id ≡ i
  unfolding slot new_slot
  slot-id q i = elim (Option-cases (find_slot i q.slots)) [
    | inl e ↦ rw (slot, e) refl
    | inr (s, e) ↦ rw (slot, e) (find_slot-id i q.slots s e)
  ]

  slot-found : (q : Queue F) (i : ℕ) (s : Slot) → find_slot i q.slots ≡ some s → slot q i ≡ (s, q)
  unfolding slot
  slot-found q i s e = rw (slot, e) refl

  -- The slot that was looked for is there.
  slot-there : (q : Queue F) (i : ℕ) → find_slot i (slot q i).1.slots ≡ some (slot q i).0
  unfolding slot new_slot
  slot-there q i = elim (Option-cases (find_slot i q.slots)) [
    | inl e ↦ rw (slot, e) (find_slot-put_slot i (new_slot i) q.slots ∙ ground arith)
    | inr (s, e) ↦ rw (slot, e) e
  ]

  slot-incarnation : (q : Queue F) (i : ℕ) → (slot q i).1.incarnation ≡ q.incarnation
  unfolding slot
  slot-incarnation q i = elim (Option-cases (find_slot i q.slots)) [
    | inl e ↦ rw (slot, e) refl
    | inr (s, e) ↦ rw (slot, e) refl
  ]

  -- A queue whose slot refuses the receipt stays as it is.
  refuses :
      (u : Queue F) (r : Receipt) (s : Slot) (e : EngineError)
      → (r.incarnation == u.incarnation) ≡ true
      → find_slot r.slot u.slots ≡ some s
      → Deliver.ack s r ≡ err e
      → ack u r ≡ (some e, u)
  unfolding ack
  refuses u r s e own there refused =
      rw (ack, slot-found u r.slot s there, own, refused)
        (ap (λ x. (some e, x.1)) (slot-found u r.slot s there))

  -- What an acknowledgement that is not refused, or finds no lease, leaves to a second one.
  ack-again :
      (q : Queue F) (r : Receipt)
      → AreSound q.slots
      → ((ack q r).0 ≡ none) ⊎ ((ack q r).0 ≡ some not_in_flight)
      → ack (ack q r).1 r ≡ (some not_in_flight, (ack q r).1)
  unfolding ack write_slot
  ack-again q r sound h = elim (Bool-cases (r.incarnation == q.incarnation)) [
    | inr f ↦ absurd (foreign f h)
    | inl own ↦ elim (Result-cases (Deliver.ack (slot q r.slot).0 r)) [
      | inl (e, x) ↦
          let after : ack q r ≡ (some e, q1) = rw (ack, own, x) refl in
          let same = no_lease e (rw after at h) in
          stays (some e, q1) after
            (refuses q1 r s not_in_flight (own1 own) (slot-there q r.slot) (x ∙ ap err same))
      | inr (t, x) ↦
          let u : Queue F = record (write_slot q1 t) {
            depth = q.depth -ℤ pos 1;
            journal = terminal_entry r.slot r.message_id terminal_ack ∷ q.journal;
          } in
          let after : ack q r ≡ (none, u) = rw (ack, own, x) refl in
          let well = (slot-AreSound q r.slot sound).0.0 in
          stays (none, u) after
            (refuses u r t not_in_flight (own1 own) (placed t x) (ack_twice s t r well x))
    ]
  ]
    where
      s : Slot
      s = (slot q r.slot).0

      q1 : Queue F
      q1 = (slot q r.slot).1

      own1 : (r.incarnation == q.incarnation) ≡ true → (r.incarnation == q1.incarnation) ≡ true
      own1 own = ap (λ n. r.incarnation == n) (slot-incarnation q r.slot) ∙ own

      stays :
          (p : Option EngineError × Queue F)
          → ack q r ≡ p
          → ack p.1 r ≡ (some not_in_flight, p.1)
          → ack (ack q r).1 r ≡ (some not_in_flight, (ack q r).1)
      stays p after k = subst (λ p. ack p.1 r ≡ (some not_in_flight, p.1)) (sym after) k

      placed : (t : Slot) → Deliver.ack s r ≡ ok t → find_slot r.slot (put_slot t q1.slots) ≡ some t
      placed t x =
          let i : t.id ≡ r.slot = ack-id s t r x ∙ slot-id q r.slot in
          find_slot-put_slot r.slot t q1.slots ∙ ground (arith, i)

      no_lease :
          (e : EngineError) → (some e ≡ none) ⊎ (some e ≡ some not_in_flight) → e ≡ not_in_flight
      no_lease e (inl n) = absurd cc
      no_lease e (inr n) = cc

      unlike : some lease_expired ≡ some not_in_flight → ⊥
      unlike h = cc

      foreign :
          (r.incarnation == q.incarnation) ≡ false
          → ((ack q r).0 ≡ none) ⊎ ((ack q r).0 ≡ some not_in_flight)
          → ⊥
      foreign f (inl e) = let gone : some lease_expired ≡ none = rw (ack, f) at e in cc
      foreign f (inr e) =
          let gone : some lease_expired ≡ some not_in_flight = rw (ack, f) at e in unlike gone

reply_cases :
    (e : Option EngineError) → ack_reply e ≡ done tt → (e ≡ none) ⊎ (e ≡ some not_in_flight)
unfolding ack_reply
reply_cases none h = inl refl
reply_cases (some not_in_flight) h = inr refl
reply_cases (some lease_expired) h = absurd cc
reply_cases (some bad_priority) h = absurd cc
reply_cases (some queue_full) h = absurd cc
reply_cases (some frozen_queue) h = absurd cc
reply_cases (some EngineError.bad_slot) h = absurd cc

module _ {F : Type 0} (b : Base64) (text : List ℕ → String) where
  decoded_again :
      (lq : LiveQueue F) (d : Decoded)
      → AreSound lq.q.slots
      → (ack_decoded b text lq d).0 ≡ done tt
      → ack_decoded b text (ack_decoded b text lq d).1 d ≡ (done tt, (ack_decoded b text lq d).1)
  unfolding ack_decoded ack_reply
  decoded_again lq (named n) sound h =
      let r = receipt_of text n in
      let again = ack-again lq.q r sound (reply_cases (ack lq.q r).0 h) in
      ap (λ p. (ack_reply p.0, record lq { q = p.1 })) again
  decoded_again lq bad_encoding sound h = absurd cc
  decoded_again lq (bad_count k) sound h = absurd cc
  decoded_again lq bad_slot sound h = absurd cc
  decoded_again lq bad_epoch sound h = absurd cc
  decoded_again lq bad_incarnation sound h = absurd cc

-- In a queue whose slots are all well formed with correct gauges: where an acknowledgement is answered with
-- success, the same request sent again is answered with success and changes nothing.
pub ack_request_again :
    {F : Type 0} (b : Base64) (text : List ℕ → String) (lq lq1 : LiveQueue F) (token : List ℕ)
    → AreSound lq.q.slots
    → ack_request b text (some lq) token ≡ (done tt, some lq1)
    → ack_request b text (some lq1) token ≡ (done tt, some lq1)
unfolding ack_request ack_decoded
ack_request_again {F} b text lq lq1 token sound h =
    let d = decode_receipt b token in
    let after : some (ack_decoded b text lq d).1 ≡ some lq1 = ap (λ p. p.1) h in
    let same : (ack_decoded b text lq d).1 ≡ lq1 = cc in
    let again = decoded_again b text lq d sound (ap (λ p. p.0) h) in
    subst (λ u. ack_request b text (some u) token ≡ (done tt, some u)) same
      (ap (λ p. (p.0, some p.1)) again)
