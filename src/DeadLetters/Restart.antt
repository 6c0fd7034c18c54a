-- ===== src/DeadLetters/Restart.antt =====
-- The letters that a node has after a restart, from what its log says.
use ryuk_dpq.Base.{
  ℕ, ◌≡◌, refl, sym, ap, ◌∙◌, String, Bool, true, false, ◌||◌, Option, none, some, List, [], ◌∷◌,
  ◌++◌, ◌⊎◌, inl, inr, map, arith, Bool-cases, Option-cases, str_eq, eq_iff,
}
use ryuk_dpq.Base.Dict.{lookup, put, lookup-put, lookup-delete}
use ryuk_dpq.Engine.Message.{Message}
use ryuk_dpq.Wal.Replay.{message_from_payload, payload_from_message}
use ryuk_dpq.Wal.Letters.{
  PendingDeadLetter, Waiting, see_letter, drain_letter, letters_in, letter_payload, drained_payload,
}
use ryuk_dpq.Wal.Letters.Laws.{Event, given, drained, after_event, after_events}
use ryuk_dpq.DeadLetters.{restore, given_again}
use ryuk_dpq.DeadLetters.Delivery.{among}
use ryuk_dpq.DeadLetters.Log.{Waits, lookup-see_letter, see_letter-Waits}

-- What a node tells of its letters by their identifiers.
abbrev pub ids_of : List PendingDeadLetter → List String
ids_of ds = map (λ d. d.msg.id) ds

-- Every letter has its own identifier, and its place in the order.
abbrev pub AreListed : Waiting → Type 0
AreListed v =
    (k : String) (d : PendingDeadLetter)
    → lookup k v.live ≡ some d
    → (d.msg.id ≡ k) × (among v.order k ≡ true)

or_assoc : (a b c : Bool) → a || (b || c) ≡ (a || b) || c
or_assoc true b c = refl
or_assoc false b c = refl

pub or_right : (a : Bool) {b : Bool} → b ≡ true → a || b ≡ true
or_right true e = refl
or_right false e = e

pub or_left : {a : Bool} (b : Bool) → a ≡ true → a || b ≡ true
or_left b e = rw e refl

among-append : (js : List String) (j k : String) → among (js ++ j ∷ []) k ≡ among js k || str_eq j k
unfolding among
among-append [] j k = or_false (str_eq j k)
  where
    or_false : (b : Bool) → b || false ≡ b
    or_false true = refl
    or_false false = refl
among-append (i ∷ js) j k =
    ap (λ b. str_eq i k || b) (among-append js j k) ∙ or_assoc (str_eq i k) _ _

see_letter-AreListed :
    (v : Waiting) (slot : ℕ) (m : Message)
    → AreListed v
    → AreListed (see_letter v (letter_payload slot m))
unfolding see_letter payload_from_message message_from_payload
see_letter-AreListed v slot m h k d e = elim (Bool-cases (str_eq m.id k)) [
  | inl y ↦
      let given_now : PendingDeadLetter = record {
        slot = slot;
        msg = message_from_payload (payload_from_message m);
      } in
      let there : some given_now ≡ some d =
        sym (lookup-put m.id k given_now v.live ∙ ground arith) ∙ e in
      let same : given_now ≡ d = cc in
      (ap (λ x. x.msg.id) (sym same) ∙ (eq_iff m.id k).0 y, listed_now (lookup m.id v.live) refl y)
  | inr n ↦
      let (i, a) = h k d (sym (lookup-see_letter k v slot m n) ∙ e) in
      (i, listed_still (lookup m.id v.live) a)
]
  where
    order_of : Option PendingDeadLetter → List String
    order_of o = elim o [ none ↦ v.order ++ m.id ∷ [] | some d ↦ v.order ]

    listed_now :
        (o : Option PendingDeadLetter)
        → lookup m.id v.live ≡ o
        → str_eq m.id k ≡ true
        → among (order_of o) k ≡ true
    listed_now none eo y = among-append v.order m.id k ∙ or_right (among v.order k) y
    listed_now (some d) eo y =
        let same : m.id ≡ k = (eq_iff m.id k).0 y in rw same at (h m.id d eo).1

    listed_still :
        (o : Option PendingDeadLetter) → among v.order k ≡ true → among (order_of o) k ≡ true
    listed_still none a = among-append v.order m.id k ∙ or_left (str_eq m.id k) a
    listed_still (some d) a = a

drain_letter-AreListed :
    (v : Waiting) (id : String) → AreListed v → AreListed (drain_letter v (drained_payload id))
unfolding drain_letter
drain_letter-AreListed v id h k d e = elim (Bool-cases (str_eq id k)) [
  | inl y ↦
      let gone : none ≡ some d = sym (lookup-delete id k v.live ∙ ground arith) ∙ e in absurd cc
  | inr n ↦ h k d (sym (lookup-delete id k v.live ∙ rw n refl) ∙ e)
]

pub after_events-AreListed :
    (es : List Event) (v : Waiting) → AreListed v → AreListed (after_events v es)
unfolding after_events after_event
after_events-AreListed [] v h = h
after_events-AreListed (given slot m ∷ es) v h =
    after_events-AreListed es _ (see_letter-AreListed v slot m h)
after_events-AreListed (drained id ∷ es) v h =
    after_events-AreListed es _ (drain_letter-AreListed v id h)

-- A letter of the log is among those that a replay finds.
pub letters_in-among :
    (k : String) (d : PendingDeadLetter) (live : List (String × PendingDeadLetter))
    (ks : List String)
    → lookup k live ≡ some d
    → d.msg.id ≡ k
    → among ks k ≡ true
    → among (ids_of (letters_in live ks)) k ≡ true
unfolding letters_in among
letters_in-among k d live [] e i a = absurd cc
letters_in-among k d live (j ∷ ks) e i a = elim (Bool-cases (str_eq j k)) [
  | inl y ↦
      let same : j ≡ k = (eq_iff j k).0 y in
      let here : lookup j live ≡ some d = rw same e in
      rw (letters_in, here, among, i) (or_left _ ((eq_iff k k).1 refl))
  | inr n ↦
      let rest = letters_in-among k d live ks e i (rw n at a) in
      elim (Option-cases (lookup j live)) [
        | inl none_here ↦ rw (letters_in, none_here) rest
        | inr (c, here) ↦ rw (letters_in, here, among) (or_right (str_eq c.msg.id k) rest)
      ]
]

pub given_again-Waits :
    (k : String) (ds : List PendingDeadLetter) (v : Waiting)
    → (among (ids_of ds) k ≡ true) ⊎ Waits k v
    → Waits k (after_events v (map given_again ds))
unfolding after_events after_event among
given_again-Waits k [] v (inl h) = absurd cc
given_again-Waits k [] v (inr w) = w
given_again-Waits k (d ∷ ds) v h =
    given_again-Waits k ds (see_letter v (letter_payload d.slot d.msg))
      (split_off (str_eq d.msg.id k) refl h)
  where
    split_off :
        (b : Bool)
        → str_eq d.msg.id k ≡ b
        → (b || among (ids_of ds) k ≡ true) ⊎ Waits k v
        → (among (ids_of ds) k ≡ true) ⊎ Waits k (see_letter v (letter_payload d.slot d.msg))
    split_off b e (inr w) = inr (see_letter-Waits k v d.slot d.msg (inr w))
    split_off true e (inl a) = inr (see_letter-Waits k v d.slot d.msg (inl e))
    split_off false e (inl a) = inl a

pub restore-lookup :
    (k : String) (ds : List PendingDeadLetter) (dl : List (String × PendingDeadLetter))
    → (among (ids_of ds) k ≡ true) ⊎ ((d : PendingDeadLetter) × (lookup k dl ≡ some d))
    → (d : PendingDeadLetter) × (lookup k (restore ds dl) ≡ some d)
unfolding restore among
restore-lookup k [] dl (inl h) = absurd cc
restore-lookup k [] dl (inr w) = w
restore-lookup k (d ∷ ds) dl h =
    restore-lookup k ds (put d.msg.id d dl) (split_off (str_eq d.msg.id k) refl h)
  where
    split_off :
        (b : Bool)
        → str_eq d.msg.id k ≡ b
        → (b || among (ids_of ds) k ≡ true) ⊎ ((c : PendingDeadLetter) × (lookup k dl ≡ some c))
        → (among (ids_of ds) k ≡ true)
          ⊎ ((c : PendingDeadLetter) × (lookup k (put d.msg.id d dl) ≡ some c))
    split_off true e g = inr (d, lookup-put d.msg.id k d dl ∙ rw e refl)
    split_off false e (inl a) = inl a
    split_off false e (inr (c, w)) = inr (c, lookup-put d.msg.id k d dl ∙ rw e w)
