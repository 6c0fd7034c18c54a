-- ===== src/DeadLetters/Log.antt =====
-- What a log of dead letters says of one identifier, and what a restart makes of it.
use ryuk_dpq.Base.{
  ℕ, ◌≡◌, refl, sym, ◌∙◌, String, Bool, true, false, ◌&&◌, some, List, [], ◌∷◌, ◌++◌, ◌⊎◌, inl, inr,
  arith, Bool-cases, str_eq, eq_iff,
}
use ryuk_dpq.Base.Dict.{lookup, put, lookup-put, lookup-delete}
use ryuk_dpq.Engine.Message.{Message}
use ryuk_dpq.Wal.Replay.{message_from_payload, payload_from_message}
use ryuk_dpq.Wal.Letters.{
  PendingDeadLetter, Waiting, see_letter, drain_letter, letter_payload, drained_payload,
}
use ryuk_dpq.Wal.Letters.Laws.{Event, after_event, after_events}
use ryuk_dpq.DeadLetters.{drained_events}

-- The log has the letter.
abbrev pub Waits : String → Waiting → Type 0
Waits k v = (d : PendingDeadLetter) × (lookup k v.live ≡ some d)

pub after_events-append :
    (v : Waiting) (es fs : List Event)
    → after_events v (es ++ fs) ≡ after_events (after_events v es) fs
unfolding after_events
after_events-append v [] fs = refl
after_events-append v (e ∷ es) fs = after_events-append (after_event v e) es fs

pub lookup-see_letter :
    (k : String) (v : Waiting) (slot : ℕ) (m : Message)
    → str_eq m.id k ≡ false
    → lookup k (see_letter v (letter_payload slot m)).live ≡ lookup k v.live
unfolding see_letter payload_from_message
lookup-see_letter k v slot m e = lookup-put m.id k _ v.live ∙ rw e refl

pub see_letter-Waits :
    (k : String) (v : Waiting) (slot : ℕ) (m : Message)
    → (str_eq m.id k ≡ true) ⊎ Waits k v
    → Waits k (see_letter v (letter_payload slot m))
unfolding see_letter payload_from_message
see_letter-Waits k v slot m h = elim (Bool-cases (str_eq m.id k)) [
  | inl e ↦
      let d : PendingDeadLetter = record {
        slot = slot;
        msg = message_from_payload (payload_from_message m);
      } in
      let there : lookup k (put m.id d v.live) ≡ some d =
        lookup-put m.id k d v.live ∙ ground arith in
      (d, there)
  | inr e ↦ elim h [
    | inl y ↦ absurd (differ (sym y ∙ e))
    | inr (d, w) ↦ (d, lookup-see_letter k v slot m e ∙ w)
  ]
]
  where
    differ : true ≡ false → ⊥
    differ h = cc

drain_letter-Waits :
    (k id : String) (v : Waiting)
    → str_eq id k ≡ false
    → Waits k v
    → Waits k (drain_letter v (drained_payload id))
unfolding drain_letter
drain_letter-Waits k id v e (d, w) = (d, lookup-delete id k v.live ∙ rw e w)

-- What is not to go is not drained.
drained_apart :
    (want : String → Bool) (j k : String) (b : Bool)
    → want k ≡ false
    → want j && b ≡ true
    → str_eq j k ≡ false
drained_apart want j k b e y = elim (Bool-cases (str_eq j k)) [
  | inr n ↦ n
  | inl s ↦
      let same : j ≡ k = (eq_iff j k).0 s in
      let gone : want k && b ≡ true = rw same at y in
      let never : false && b ≡ true = rw e at gone in absurd cc
]

pub drained_events-Waits :
    (k : String) (want written : String → Bool) (m : List (String × PendingDeadLetter))
    (v : Waiting)
    → want k ≡ false
    → Waits k v
    → Waits k (after_events v (drained_events want written m))
unfolding drained_events after_events after_event
drained_events-Waits k want written [] v e w = w
drained_events-Waits k want written ((j, d) ∷ m) v e w = elim (Bool-cases (want j && written j)) [
  | inr n ↦ rw (drained_events, n) (drained_events-Waits k want written m v e w)
  | inl y ↦
      let apart : str_eq j k ≡ false = drained_apart want j k (written j) e y in
      rw (drained_events, y, after_events, after_event)
        (drained_events-Waits k want written m (drain_letter v (drained_payload j)) e
          (drain_letter-Waits k j v apart w))
]
