-- ===== src/Wal/Told.antt =====
-- What the records of a slot's log (backend/queue/repo/walfile/record.go) tell, and what a replay of
-- wal.go makes of it: told apart from how the replay keeps it.
use ryuk_dpq.Base.{
  ℕ, ◌<◌, ◌≤◌, ◌≡◌, refl, String, false, Option, some, List, [], ◌∷◌, ◌++◌, ◌==◌, inl, inr,
  Option-cases, length, take, total, All, ◌∙◌, ap,
}
use ryuk_dpq.Base.Dict.{lookup}
use ryuk_dpq.Engine.Message.{Message}
use ryuk_dpq.Wal.Changes.{Change, sets, alters, ends, passes, left_by, NeverReturns}
use ryuk_dpq.Wal.Changes.Replayed.{alter, change, change_all, meet, meet_all}
use ryuk_dpq.Wal.Changes.Order.{in_order}
use ryuk_dpq.Wal.Changes.Found.{found-left_by}
use ryuk_dpq.Wal.Record.{max_record_bytes, encode, kind_enqueue, kind_attempt, kind_terminal}
use ryuk_dpq.Wal.Recovery.{encode_all, apply_all, Fits, replay_slot_torn}
use ryuk_dpq.Wal.Replay.{
  Json, EnqueuePayload, AttemptPayload, TerminalPayload, message_from_payload, Live, see,
  count_attempt, end_message, live_messages, apply_record, replay_slot,
}

pub data Said : Type 0 where
  enqueued : EnqueuePayload → Said
  attempted : AttemptPayload → Said
  ended : TerminalPayload → Said
  skipped : Said

-- The record says it: its body decodes to the payload. A kind that is none of the three says nothing.
abbrev pub Says : Json → Said → ℕ × List ℕ → Type 0
Says j (enqueued p) (kind, body) = (kind ≡ kind_enqueue) × (j.unmarshal_enqueue body ≡ some p)
Says j (attempted p) (kind, body) = (kind ≡ kind_attempt) × (j.unmarshal_attempt body ≡ some p)
Says j (ended p) (kind, body) = (kind ≡ kind_terminal) × (j.unmarshal_terminal body ≡ some p)
Says j skipped (kind, body) =
    ((kind == kind_enqueue) ≡ false)
    × ((kind == kind_attempt) ≡ false)
    × ((kind == kind_terminal) ≡ false)

abbrev pub Tells : Json → List Said → List (ℕ × List ℕ) → Type 0
Tells j [] [] = Unit
Tells j [] (r ∷ rs) = ⊥
Tells j (e ∷ es) [] = ⊥
Tells j (e ∷ es) (r ∷ rs) = Says j e r × Tells j es rs

-- An enqueue puts a message, an attempt sets its count, and its end takes it away.
unfoldable pub change_of : Said → Change Message
change_of (enqueued p) = sets p.id (message_from_payload p)
change_of (attempted p) = alters p.id (λ m. record m { attempts = p.attempts })
change_of (ended p) = ends p.id
change_of skipped = passes

unfoldable pub changes_of : List Said → List (Change Message)
unfolding change_of
changes_of [] = []
changes_of (e ∷ es) = change_of e ∷ changes_of es

live_messages-in_order :
    (m : List (String × Message)) (ks : List String) → live_messages m ks ≡ in_order m ks
unfolding live_messages in_order
live_messages-in_order m [] = refl
live_messages-in_order m (k ∷ ks) = elim (Option-cases (lookup k m)) [
  | inl e ↦ rw (live_messages, in_order, e) (live_messages-in_order m ks)
  | inr (x, e) ↦ rw (live_messages, in_order, e) (ap (λ ms. x ∷ ms) (live_messages-in_order m ks))
]

abbrev kept : List (String × Message) → List String → Live
kept m ks = record { live = m; order = ks }

count_attempt-kept :
    (m : List (String × Message)) (ks : List String) (p : AttemptPayload)
    → count_attempt (kept m ks) p ≡ kept (change m (change_of (attempted p))) ks
unfolding count_attempt change alter change_of
count_attempt-kept m ks p = elim (Option-cases (lookup p.id m)) [
  | inl e ↦ rw (count_attempt, alter, e) refl
  | inr (x, e) ↦ rw (count_attempt, alter, e) refl
]

module _ (j : Json) where
  apply-Tells :
      (es : List Said) (rs : List (ℕ × List ℕ)) (m : List (String × Message)) (ks : List String)
      → Tells j es rs
      → apply_all (apply_record j) rs (kept m ks)
        ≡ some (kept (change_all m (changes_of es)) (meet_all m ks (changes_of es)))
  unfolding apply_all apply_record change_all meet_all changes_of change_of change meet see
      end_message
  apply-Tells [] [] m ks h = refl
  apply-Tells [] (r ∷ rs) m ks h = absurd h
  apply-Tells (e ∷ es) [] m ks h = absurd h
  apply-Tells (enqueued p ∷ es) ((kind, body) ∷ rs) m ks ((k, w), h) =
      rw (k, apply_all, w) (apply-Tells es rs _ _ h)
  apply-Tells (attempted p ∷ es) ((kind, body) ∷ rs) m ks ((k, w), h) =
      rw (k, apply_all, w, count_attempt-kept m ks p) (apply-Tells es rs _ _ h)
  apply-Tells (ended p ∷ es) ((kind, body) ∷ rs) m ks ((k, w), h) =
      rw (k, apply_all, w) (apply-Tells es rs _ _ h)
  apply-Tells (skipped ∷ es) ((kind, body) ∷ rs) m ks (k, h) =
      rw (k.0, k.1, k.2, apply_all) (apply-Tells es rs m ks h)

-- What a replay of a log finds, by any measure.
pub record Recovered (found : Option (List Message × List ℕ)) (es : List Said)
    (rs : List (ℕ × List ℕ)) : Type 0 where
  pub messages : List Message
  pub answer : found ≡ some (messages, encode_all rs)
  pub left : (w : Message → ℕ) → total w messages ≡ total w (left_by (changes_of es))

-- The log of whole records whose last write was cut short, anywhere or at its very start: where the
-- payloads of the whole records decode, and no message is enqueued again after its end, the replay finds,
-- by any measure, each message whose enqueue no later enqueue or end of the same identifier follows, with
-- the attempts that the last attempt after it says, and no other; and it cuts the file back to the whole
-- records, so that the next append starts clean.
pub replay_slot_recovers :
    (j : Json) (es : List Said) (rs : List (ℕ × List ℕ)) (kind : ℕ) (body : List ℕ) (k : ℕ)
    → Tells j es rs
    → All Fits rs
    → NeverReturns (changes_of es)
    → length body ≤ max_record_bytes
    → k < length (encode kind body)
    → Recovered (replay_slot j (encode_all rs ++ take k (encode kind body))) es rs
replay_slot_recovers j es rs kind body k tells fit never fits cut =
    let applied = apply-Tells j es rs [] [] tells in
    record {
      messages = live_messages (change_all [] (changes_of es)) (meet_all [] [] (changes_of es));
      answer = replay_slot_torn j rs kind body k _ fit fits cut applied;
      left = λ w. ap (total w) (live_messages-in_order _ _) ∙ found-left_by w (changes_of es) never;
    }
