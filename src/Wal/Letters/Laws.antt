-- ===== src/Wal/Letters/Laws.antt =====
-- What a replay finds of the dead letters that were written and drained.
use ryuk_dpq.Base.{
  ℕ, ◌<◌, ◌≤◌, ◌≡◌, refl, ◌∙◌, ap, String, some, inl, inr, Option-cases, total, List, [], ◌∷◌, ◌++◌,
  length, take, All, take-append,
}
use ryuk_dpq.Engine.Message.{Message}
use ryuk_dpq.Base.Dict.{lookup}
use ryuk_dpq.Wal.Changes.{Change, sets, ends, left_by, NeverReturns}
use ryuk_dpq.Wal.Changes.Replayed.{change, change_all, meet, meet_all}
use ryuk_dpq.Wal.Changes.Order.{in_order}
use ryuk_dpq.Wal.Changes.Found.{found-left_by}
use ryuk_dpq.Wal.Replay.{payload_from_message, message_from_payload-payload_from_message}
use ryuk_dpq.Wal.Record.{max_record_bytes, encode}
use ryuk_dpq.Wal.Recovery.{encode_all, apply_all, Fits, replay_loop_torn}
use ryuk_dpq.Wal.Letters.{
  kind_dead_letter, kind_dead_letter_drained, PendingDeadLetter, LetterJson, Waiting, none_waiting,
  see_letter, drain_letter, letters_in, letter_payload, drained_payload, apply_letter,
  replay_dead_letters,
}

-- What a record says.
pub data Event : Type 0 where
  given : ℕ → Message → Event
  drained : String → Event

-- What a replay keeps after the events, and what it reports.
unfoldable pub after_event : Waiting → Event → Waiting
unfolding see_letter drain_letter
after_event v (given slot m) = see_letter v (letter_payload slot m)
after_event v (drained id) = drain_letter v (drained_payload id)

unfoldable pub after_events : Waiting → List Event → Waiting
unfolding after_event
after_events v [] = v
after_events v (e ∷ es) = after_events (after_event v e) es

unfoldable pub outstanding : List Event → List PendingDeadLetter
unfolding after_events
outstanding es = let v = after_events none_waiting es in letters_in v.live v.order

-- A letter that is given waits, with its attempts forgotten, until it is drained.
unfoldable pub change_of : Event → Change PendingDeadLetter
change_of (given slot m) = sets m.id (record { slot = slot; msg = record m { attempts = 0 } })
change_of (drained id) = ends id

unfoldable pub changes_of : List Event → List (Change PendingDeadLetter)
unfolding change_of
changes_of [] = []
changes_of (e ∷ es) = change_of e ∷ changes_of es

-- The record is what is written for the event, in at most the greatest size.
abbrev pub Writes : LetterJson → Event → ℕ × List ℕ → Type 0
Writes j (given slot m) (kind, body) =
    (kind ≡ kind_dead_letter)
    × (j.marshal_letter (letter_payload slot m) ≡ some body)
    × (length body ≤ max_record_bytes)
Writes j (drained id) (kind, body) =
    (kind ≡ kind_dead_letter_drained)
    × (j.marshal_terminal (drained_payload id) ≡ some body)
    × (length body ≤ max_record_bytes)

abbrev pub IsLog : LetterJson → List Event → List (ℕ × List ℕ) → Type 0
IsLog j [] [] = Unit
IsLog j [] (r ∷ rs) = ⊥
IsLog j (e ∷ es) [] = ⊥
IsLog j (e ∷ es) (r ∷ rs) = Writes j e r × IsLog j es rs

abbrev kept : List (String × PendingDeadLetter) → List String → Waiting
kept m ks = record { live = m; order = ks }

module _ (j : LetterJson) where
  IsLog-Fits : (es : List Event) (rs : List (ℕ × List ℕ)) → IsLog j es rs → All Fits rs
  IsLog-Fits [] [] h = tt
  IsLog-Fits [] (r ∷ rs) h = absurd h
  IsLog-Fits (e ∷ es) [] h = absurd h
  IsLog-Fits (given slot m ∷ es) ((kind, body) ∷ rs) ((k, w, f), h) = (f, IsLog-Fits es rs h)
  IsLog-Fits (drained id ∷ es) ((kind, body) ∷ rs) ((k, w, f), h) = (f, IsLog-Fits es rs h)

  apply-IsLog :
      (es : List Event) (rs : List (ℕ × List ℕ)) (v : Waiting)
      → IsLog j es rs
      → apply_all (apply_letter j) rs v ≡ some (after_events v es)
  unfolding apply_all apply_letter after_events after_event
  apply-IsLog [] [] v h = refl
  apply-IsLog [] (r ∷ rs) v h = absurd h
  apply-IsLog (e ∷ es) [] v h = absurd h
  apply-IsLog (given slot m ∷ es) ((kind, body) ∷ rs) v ((k, w, f), h) =
      let read = j.letter_back (letter_payload slot m) body w in
      rw (k, apply_all, read) (apply-IsLog es rs (see_letter v (letter_payload slot m)) h)
  apply-IsLog (drained id ∷ es) ((kind, body) ∷ rs) v ((k, w, f), h) =
      let read = j.terminal_back (drained_payload id) body w in
      rw (k, apply_all, read) (apply-IsLog es rs (drain_letter v (drained_payload id)) h)

after_events-kept :
    (es : List Event) (m : List (String × PendingDeadLetter)) (ks : List String)
    → after_events (kept m ks) es
      ≡ kept (change_all m (changes_of es)) (meet_all m ks (changes_of es))
unfolding after_events after_event change_all meet_all changes_of change_of change meet see_letter
    drain_letter payload_from_message
after_events-kept [] m ks = refl
after_events-kept (given slot x ∷ es) m ks =
    rw (message_from_payload-payload_from_message x) (after_events-kept es _ _)
after_events-kept (drained id ∷ es) m ks = after_events-kept es _ _

letters_in-in_order :
    (m : List (String × PendingDeadLetter)) (ks : List String) → letters_in m ks ≡ in_order m ks
unfolding letters_in in_order
letters_in-in_order m [] = refl
letters_in-in_order m (k ∷ ks) = elim (Option-cases (lookup k m)) [
  | inl e ↦ rw (letters_in, in_order, e) (letters_in-in_order m ks)
  | inr (x, e) ↦ rw (letters_in, in_order, e) (ap (λ ds. x ∷ ds) (letters_in-in_order m ks))
]

-- What a replay finds, by any measure.
pub total-outstanding :
    (w : PendingDeadLetter → ℕ) (es : List Event)
    → NeverReturns (changes_of es)
    → total w (outstanding es) ≡ total w (left_by (changes_of es))
unfolding outstanding
total-outstanding w es never =
    rw (after_events-kept es [] [])
      (ap (total w) (letters_in-in_order _ _) ∙ found-left_by w (changes_of es) never)

-- Where the records of a log say some events, no letter is given again after it was drained, and the last
-- write was cut short anywhere, a replay finds, by any measure, each letter that was given and neither
-- given again nor drained later, with its slot and its attempts forgotten, and no other; and it cuts the
-- file back to the whole records.
pub replay_dead_letters_recovers :
    (j : LetterJson) (es : List Event) (rs : List (ℕ × List ℕ)) (kind : ℕ) (body : List ℕ) (k : ℕ)
    (w : PendingDeadLetter → ℕ)
    → IsLog j es rs
    → NeverReturns (changes_of es)
    → length body ≤ max_record_bytes
    → k < length (encode kind body)
    → (ds : List PendingDeadLetter) × (replay_dead_letters j
          (some (encode_all rs ++ take k (encode kind body)))
        ≡ some (ds, some (encode_all rs)))
      × (total w ds ≡ total w (left_by (changes_of es)))
unfolding replay_dead_letters outstanding
replay_dead_letters_recovers j es rs kind body k w h never fits cut =
    let read =
      replay_loop_torn (apply_letter j) rs kind body k none_waiting (IsLog-Fits j es rs h) fits
        cut in
    (
      outstanding es,
      rw
          (
            read,
            replay_dead_letters,
            apply-IsLog j es rs none_waiting h,
            take-append (encode_all rs) (take k (encode kind body)),
          )
          refl,
      total-outstanding w es never,
    )
