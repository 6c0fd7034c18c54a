-- ===== src/Requests/Transfers/Retries.antt =====
-- A transfer that is sent again.
use ryuk_dpq.Base.{
  ℕ, ◌+◌, ◌≡◌, refl, ap, ◌∙◌, String, Bool, true, false, ◌==◌, none, some, List, [], ◌∷◌, str_eq,
  eq_iff, ltb, if◌then◌else◌, total, arith, if_cases,
}
use ryuk_dpq.Engine.Message.{Message}
use ryuk_dpq.Engine.Config.{Floats, Config}
use ryuk_dpq.Engine.State.{Slot}
use ryuk_dpq.Engine.Accounts.{IsStable}
use ryuk_dpq.Engine.Queue.{Queue, reconfigure}
use ryuk_dpq.Engine.Queue.Holdings.{held_in}
use ryuk_dpq.Engine.Queue.Admission.{AreSound}
use ryuk_dpq.Engine.Migrate.{BySlot, absorb, thaw}
use ryuk_dpq.Engine.Migrate.Absorbed.{sent_to, list_length, absorb_correct}
use ryuk_dpq.Wire.{QueueSpec, engine_config}
use ryuk_dpq.Requests.{LiveQueue, Reply, done, internal, queue_for}
use ryuk_dpq.Requests.Transfers.{
  Transfer, Holder, is_applied, claim_move, received_all, journal_slot, journal_all, absorb_new,
  absorb_known, absorb_request,
}

-- The slots of a queue, which none has where the node has not opened it.
abbrev pub slots_of : {F : Type 0} → Holder F → List Slot
slots_of n = elim n.entry [ none ↦ [] | some lq ↦ lq.q.slots ]

seen_after : (id : String) (ks : List String) → is_applied id (id ∷ ks) ≡ true
unfolding is_applied
seen_after id ks = ground (arith, eq_iff id id)

reconfigure-slots :
    (fl : Floats) (same : Config fl.F → Config fl.F → Bool) (q : Queue fl.F) (c : Config fl.F)
    → (reconfigure fl same q c).1.slots ≡ q.slots
unfolding reconfigure
reconfigure-slots fl same q c =
    if_cases (λ (x : Bool × Queue fl.F). x.1.slots ≡ q.slots) _ (λ e. refl) (λ e. refl)

-- The records of the logs that are of one slot.
abbrev pub logged_to : (Message → ℕ) → ℕ → ℕ × Message → ℕ
logged_to w j (i, m) = if i == j then w m else 0

journal_slot-logged :
    (takes : ℕ → Message → Bool) (i : ℕ) (ms : List Message) (log : List (ℕ × Message))
    (w : Message → ℕ) (j : ℕ)
    → (journal_slot takes i ms log).0 ≡ true
    → total (logged_to w j) (journal_slot takes i ms log).1
      ≡ total (logged_to w j) log + (if i == j then total w ms else 0)
unfolding journal_slot
journal_slot-logged takes i [] log w j h = ground arith
journal_slot-logged takes i (m ∷ ms) log w j h =
    ground (arith, h, journal_slot-logged takes i ms ((i, m) ∷ log) w j)

journal_all-logged :
    (takes : ℕ → Message → Bool) (b : BySlot) (log : List (ℕ × Message)) (w : Message → ℕ) (j : ℕ)
    → (journal_all takes b log).0 ≡ true
    → total (logged_to w j) (journal_all takes b log).1
      ≡ total (logged_to w j) log + total (sent_to w j) b
unfolding journal_all
journal_all-logged takes [] log w j h = omega arith
journal_all-logged takes ((i, ms) ∷ b) log w j h =
    let log1 = (journal_slot takes i ms log).1 in
    ground (arith, h, journal_slot-logged takes i ms log w j, journal_all-logged takes b log1 w j)

module _ (fl : Floats) (same : Config fl.F → Config fl.F → Bool) (spec : QueueSpec fl.F)
    (incarnation : ℕ) (opened : Bool) where
  abbrev request :
      Holder fl.F → Transfer → (ℕ → Message → Bool) → ℕ → (Reply Unit × Bool) × Holder fl.F
  request n t takes now = absorb_request fl same n spec incarnation opened t takes now

  -- A move that was seen is answered with success, and the slots are as they were.
  absorb_request_again :
      (lq : LiveQueue fl.F) (ks : List String) (log : List (ℕ × Message)) (t : Transfer)
      (takes : ℕ → Message → Bool) (now : ℕ)
      → str_eq t.move_id "" ≡ false
      → is_applied t.move_id ks ≡ true
      → let r =
          request (record { entry = some lq; applied_moves = ks; logged = log }) t takes now in
        (r.0 ≡ (done tt, false)) × (slots_of r.1 ≡ lq.q.slots)
  unfolding absorb_request absorb_known claim_move queue_for
  absorb_request_again lq ks log t takes now named seen =
      rw (seen, named) (refl, reconfigure-slots fl same lq.q (engine_config spec))

  module _ (lq : LiveQueue fl.F) (ks : List String) (log : List (ℕ × Message)) (t : Transfer) where
    abbrev before : Holder fl.F
    before = record { entry = some lq; applied_moves = ks; logged = log }

    -- A log that does not take a record of a new move: the sender is told of an error; but the same
    -- request sent again is answered with success, whether or not the logs take records then, and
    -- the slots of the queue are what they were before both.
    pub failed_move_retry_loses :
        (takes again : ℕ → Message → Bool) (now later : ℕ)
        → str_eq t.move_id "" ≡ false
        → is_applied t.move_id ks ≡ false
        → (journal_all takes (received_all t.by_slot) log).0 ≡ false
        → let r = request before t takes now in
          let u = request r.1 t again later in
          (r.0 ≡ (internal, false)) × (u.0 ≡ (done tt, false)) × (slots_of u.1 ≡ lq.q.slots)
    unfolding absorb_request absorb_known absorb_new claim_move queue_for
    failed_move_retry_loses takes again now later named new_move failed =
        let lq1 = record lq { q = (reconfigure fl same lq.q (engine_config spec)).1 } in
        let log1 = (journal_all takes (received_all t.by_slot) log).1 in
        let after = request before t takes now in
        let first : after ≡ (
          (internal, false),
          record { entry = some lq1; applied_moves = t.move_id ∷ ks; logged = log1 },
        ) =
          rw (new_move, named, failed) refl in
        let (told, kept) =
          absorb_request_again lq1 (t.move_id ∷ ks) log1 t again later named
            (seen_after t.move_id ks) in
        (
          ap (λ x. x.0) first,
          ap (λ (x : (Reply Unit × Bool) × Holder fl.F). (request x.1 t again later).0) first
              ∙ told,
          ap (λ (x : (Reply Unit × Bool) × Holder fl.F). slots_of (request x.1 t again later).1)
                first
              ∙ kept
              ∙ reconfigure-slots fl same lq.q (engine_config spec),
        )

    -- A new move whose records the logs all take: it is answered with success, and for each slot, by any
    -- measure that does not read attempts or delays, the slot and its log have the messages that came,
    -- besides what they had. The same request sent again is answered with success and adds nothing.
    pub move_absorbed_once :
        (takes again : ℕ → Message → Bool) (now later : ℕ) (w : Message → ℕ) (j : ℕ)
        → AreSound lq.q.slots
        → IsStable w
        → str_eq t.move_id "" ≡ false
        → is_applied t.move_id ks ≡ false
        → (journal_all takes (received_all t.by_slot) log).0 ≡ true
        → let r = request before t takes now in
          let u = request r.1 t again later in
          let came = total (sent_to w j) (received_all t.by_slot) in
          (r.0.0 ≡ done tt)
          × AreSound (slots_of r.1)
          × (held_in w j (slots_of r.1) ≡ held_in w j lq.q.slots + came)
          × (total (logged_to w j) r.1.logged ≡ total (logged_to w j) log + came)
          × (u.0.0 ≡ done tt)
          × (slots_of u.1 ≡ slots_of r.1)
    unfolding absorb_request absorb_known absorb_new claim_move queue_for thaw
    move_absorbed_once takes again now later w j sound stable named new_move taken =
        let b = received_all t.by_slot in
        let q1 = (reconfigure fl same lq.q (engine_config spec)).1 in
        let same_slots : q1.slots ≡ lq.q.slots =
          reconfigure-slots fl same lq.q (engine_config spec) in
        let lq2 = record lq { q = thaw (absorb b now q1) } in
        let log1 = (journal_all takes b log).1 in
        let after = request before t takes now in
        let n2 : Holder fl.F = record {
          entry = some lq2;
          applied_moves = t.move_id ∷ ks;
          logged = log1;
        } in
        let first : after ≡ ((done tt, ltb 0 (total list_length b)), n2) =
          rw (new_move, named, taken) refl in
        let (fine, more, depth, reached, seq) = absorb_correct b now q1 (rw same_slots sound) in
        let (told, kept) =
          absorb_request_again lq2 (t.move_id ∷ ks) log1 t again later named
            (seen_after t.move_id ks) in
        rw first (
          refl,
          fine,
          more w j stable ∙ ap (λ x. held_in w j x + total (sent_to w j) b) same_slots,
          journal_all-logged takes b log w j taken,
          ap (λ x. x.0) told,
          kept,
        )
