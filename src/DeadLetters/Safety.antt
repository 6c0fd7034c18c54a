-- ===== src/DeadLetters/Safety.antt =====
-- No dead letter is lost, over rounds of the gateway and restarts of the node at any point.
use ryuk_dpq.Base.{
  ℕ, suc, ◌≡◌, refl, String, Bool, true, false, ◌||◌, some, List, [], ◌∷◌, ◌++◌, ◌⊎◌, inl, inr,
  arith, ◌==◌, leb, if_cases, Bool-cases, length, str_eq,
}
use ryuk_dpq.Base.Dict.{lookup}
use ryuk_dpq.Engine.Message.{Message}
use ryuk_dpq.Wal.Letters.{PendingDeadLetter, none_waiting}
use ryuk_dpq.Wal.Letters.Laws.{Event, given, after_event, after_events, outstanding}
use ryuk_dpq.Gateway.Moves.{Call, done, failed, unsure}
use ryuk_dpq.DeadLetters.{
  max_pending_dead_letters, Letters, offer_dead_letter, dead_letters, drained_events,
  ack_dead_letters, recover_dead_letters,
}
use ryuk_dpq.DeadLetters.Delivery.{
  Source, target, not_found, unknown, deliver_dead_letter, is_done, done_ids, among, acknowledge,
  route,
}
use ryuk_dpq.DeadLetters.Log.{Waits, after_events-append, see_letter-Waits, drained_events-Waits}
use ryuk_dpq.DeadLetters.Restart.{
  or_left, or_right, ids_of, AreListed, after_events-AreListed, letters_in-among, given_again-Waits,
  restore-lookup,
}
use ryuk_dpq.DeadLetters.History.{
  History, is_taken, is_unwanted, has_such, outcome_of, Step, offered, routed, restarted, Reach,
  start, later,
}

-- What is journaled was taken, or no queue is to take it, or the log has it.
Inv : History → Type 0
Inv s =
    (k : String)
    → s.journaled k ≡ true
    → ((s.taken k ≡ true) ⊎ (s.unwanted k ≡ true))
      ⊎ Waits k (after_events none_waiting s.letters.log)

log_listed : (es : List Event) → AreListed (after_events none_waiting es)
unfolding lookup
log_listed es = after_events-AreListed es none_waiting (λ k d e. absurd cc)

-- Every letter of the log is found by a restart.
outstanding-among :
    (k : String) (es : List Event)
    → Waits k (after_events none_waiting es)
    → among (ids_of (outstanding es)) k ≡ true
unfolding outstanding
outstanding-among k es (d, w) =
    let v = after_events none_waiting es in
    let (i, a) = log_listed es k d w in letters_in-among k d v.live v.order w i a

recover-Waits :
    (k : String) (b : Bool) (n : Letters)
    → Waits k (after_events none_waiting n.log)
    → Waits k (after_events none_waiting (recover_dead_letters b n).log)
unfolding recover_dead_letters
recover-Waits k b n w =
    let pending = outstanding n.log in
    let again = given_again-Waits k pending none_waiting (inl (outstanding-among k n.log w)) in
    if_cases {A = Letters} (λ u. Waits k (after_events none_waiting u.log)) (length pending == 0)
      (λ e. w)
      (λ e. if_cases (λ es. Waits k (after_events none_waiting es)) b (λ e. again) (λ e. w))

nothing_among : (k : String) → among [] k ≡ true → ⊥
unfolding among
nothing_among k h = cc

recover-lookup :
    (k : String) (b : Bool) (n : Letters)
    → Waits k (after_events none_waiting n.log)
    → (d : PendingDeadLetter) × (lookup k (recover_dead_letters b n).dl ≡ some d)
unfolding recover_dead_letters
recover-lookup k b n w = go (outstanding n.log) refl (outstanding-among k n.log w)
  where
    go :
        (ds : List PendingDeadLetter)
        → outstanding n.log ≡ ds
        → among (ids_of ds) k ≡ true
        → (d : PendingDeadLetter) × (lookup k (recover_dead_letters b n).dl ≡ some d)
    go [] e a = absurd (nothing_among k a)
    go (d ∷ ds) e a =
        let some_left : (suc (length ds) == 0) ≡ false = ground arith in
        rw (recover_dead_letters, e, some_left) (restore-lookup k (d ∷ ds) [] (inl a))

offer-Waits :
    (k : String) (slot : ℕ) (m : Message) (n : Letters)
    → (str_eq m.id k ≡ true) ⊎ Waits k (after_events none_waiting n.log)
    → Waits k (after_events none_waiting (offer_dead_letter true slot m n).log)
unfolding offer_dead_letter after_events after_event
offer-Waits k slot m n h =
    let all = after_events none_waiting n.log in
    let there : Waits k (after_events none_waiting (n.log ++ given slot m ∷ [])) =
      rw (after_events-append none_waiting n.log (given slot m ∷ []), after_events, after_event)
        (see_letter-Waits k all slot m h) in
    if_cases {A = Letters} (λ u. Waits k (after_events none_waiting u.log))
      (leb max_pending_dead_letters (length n.dl)) (λ e. there) (λ e. there)

ack-Waits :
    (k : String) (want written : String → Bool) (n : Letters)
    → want k ≡ false
    → Waits k (after_events none_waiting n.log)
    → Waits k (after_events none_waiting (ack_dead_letters want written n).log)
unfolding ack_dead_letters
ack-Waits k want written n e w =
    rw (ack_dead_letters, after_events-append none_waiting n.log (drained_events want written n.dl))
      (drained_events-Waits k want written n.dl (after_events none_waiting n.log) e w)

acknowledge-Waits :
    (k : String) (ids : List String) (ack : Call) (written : String → Bool) (n : Letters)
    → among ids k ≡ false
    → Waits k (after_events none_waiting n.log)
    → Waits k (after_events none_waiting (acknowledge ids ack written n).log)
unfolding acknowledge
acknowledge-Waits k [] ack written n e w = w
acknowledge-Waits k (j ∷ js) failed written n e w = w
acknowledge-Waits k (j ∷ js) done written n e w = ack-Waits k (among (j ∷ js)) written n e w
acknowledge-Waits k (j ∷ js) unsure written n e w = ack-Waits k (among (j ∷ js)) written n e w

-- The gateway is done with a letter exactly where it was taken or is unwanted.
is_done-deliver_dead_letter :
    (s : Source) (accepts : String → Bool)
    → is_done (deliver_dead_letter s accepts) ≡ (is_taken s accepts || is_unwanted s)
unfolding deliver_dead_letter is_taken is_unwanted
is_done-deliver_dead_letter (target t) accepts = ground arith
is_done-deliver_dead_letter not_found accepts = refl
is_done-deliver_dead_letter unknown accepts = refl

-- A letter that the gateway acknowledges was taken or is unwanted.
done_ids-has_such :
    (source : PendingDeadLetter → Source) (accepts : PendingDeadLetter → String → Bool) (k : String)
    (ds : List PendingDeadLetter)
    → among (done_ids (outcome_of source accepts) ds) k ≡ true
    → (has_such (λ d. is_taken (source d) (accepts d)) k ds ≡ true)
      ⊎ (has_such (λ d. is_unwanted (source d)) k ds ≡ true)
unfolding done_ids among has_such
done_ids-has_such source accepts k [] h = absurd cc
done_ids-has_such source accepts k (d ∷ ds) h = ground (
  arith,
  h,
  is_done-deliver_dead_letter (source d) (accepts d),
  done_ids-has_such source accepts k ds,
)

step-Inv : {s t : History} → Inv s → Step s t → Inv t
unfolding Inv route
step-Inv {s} v (offered slot m) k a = elim (Bool-cases (str_eq m.id k)) [
  | inl y ↦ inr (offer-Waits k slot m s.letters (inl y))
  | inr n ↦ elim (v k (rw n at a)) [
    | inl g ↦ inl g
    | inr w ↦ inr (offer-Waits k slot m s.letters (inr w))
  ]
]
step-Inv {s} v (routed source accepts ack written) k a =
    let ids = done_ids (outcome_of source accepts) (dead_letters s.letters) in
    elim (Bool-cases (among ids k)) [
      | inl y ↦ elim (done_ids-has_such source accepts k (dead_letters s.letters) y) [
        | inl g ↦ inl (inl (or_left (s.taken k) g))
        | inr g ↦ inl (inr (or_left (s.unwanted k) g))
      ]
      | inr n ↦ elim (v k a) [
        | inl (inl g) ↦ inl (inl (or_right _ g))
        | inl (inr g) ↦ inl (inr (or_right _ g))
        | inr w ↦ inr (acknowledge-Waits k ids ack written s.letters n w)
      ]
    ]
step-Inv {s} v (restarted rewritten) k a = elim (v k a) [
  | inl g ↦ inl g
  | inr w ↦ inr (recover-Waits k rewritten s.letters w)
]

Reach-Inv : {s : History} → Reach s → Inv s
unfolding Inv
Reach-Inv start = λ k a. absurd cc
Reach-Inv (later r x) = step-Inv (Reach-Inv r) x

-- Whatever letters are journaled, rounds reach the node, acknowledgements get lost and restarts
-- happen, in whatever order: a letter that was journaled was enqueued with success into the dead-
-- letter queue that its queue named, or its queue was gone or named none in a round that reported the
-- letter, or the node has it to report after a restart, whether or not its log can be rewritten then.
pub journaled_letter_survives :
    {s : History} (rewritten : Bool) (k : String)
    → Reach s
    → s.journaled k ≡ true
    → ((s.taken k ≡ true) ⊎ (s.unwanted k ≡ true))
      ⊎ ((d : PendingDeadLetter) × (lookup k (recover_dead_letters rewritten s.letters).dl
            ≡ some d))
unfolding Inv
journaled_letter_survives {s} rewritten k r a = elim (Reach-Inv r k a) [
  | inl g ↦ inl g
  | inr w ↦ inr (recover-lookup k rewritten s.letters w)
]
