-- ===== src/Wal/Compaction.antt =====
-- backend/queue/repo/walfile/wal.go: Compact, and what a replay makes of a compacted log.
use ryuk_dpq.Base.{
  ℕ, ◌<◌, ◌≡◌, refl, sym, ◌∙◌, ap, Bool, true, false, Option, none, some, List, [], ◌∷◌, ◌++◌, ltb,
  if◌then◌else◌, if_cases, Bool-cases, Option-cases, inl, inr, length, drop-all, All, All-append,
  arith, str_eq, eq_iff,
}
use mathlib.Core.List.{append_assoc, append-nil}
use ryuk_dpq.Base.Dict.{lookup, put, lookup-put}
use ryuk_dpq.Engine.Message.{Message}
use ryuk_dpq.Wal.Record.{kind_enqueue, kind_attempt, encode, put_uint32}
use ryuk_dpq.Wal.Replay.{
  Json, Live, nothing_live, see, count_attempt, live_messages, payload_from_message,
  message_from_payload-payload_from_message, apply_record, replay_slot, compact_attempts,
  compact_messages, compact,
}
use ryuk_dpq.Wal.Recovery.{encode_all, apply_all, Fits, replay_slot_torn}
use ryuk_dpq.Wal.Holding.{
  attempts_of, IsWritten, IsFresh, AreApart, Holds, live_messages_found, put-Holds,
}

-- The records that a message is compacted to.
records_of : (j : Json) (m : Message) → IsWritten j m → List (ℕ × List ℕ)
records_of j m w =
    (kind_enqueue, w.body) ∷ (if ltb 0 m.attempts then (kind_attempt, w.count) ∷ [] else [])

abbrev then_all : Json → Option Live → List (ℕ × List ℕ) → Option Live
then_all j none ys = none
then_all j (some w) ys = apply_all (apply_record j) ys w

apply_all-append :
    (j : Json) (xs ys : List (ℕ × List ℕ)) (v : Live)
    → apply_all (apply_record j) (xs ++ ys) v ≡ then_all j (apply_all (apply_record j) xs v) ys
unfolding apply_all
apply_all-append j [] ys v = refl
apply_all-append j ((kind, body) ∷ xs) ys v = elim (Option-cases (apply_record j kind body v)) [
  | inl n ↦ rw (n, apply_all) refl
  | inr (u, n) ↦ rw (n, apply_all) (apply_all-append j xs ys u)
]

module _ (j : Json) (v : Live) (ms : List Message) (h : Holds v ms) (m : Message)
    (w : IsWritten j m) (f : IsFresh m.id ms) where
  abbrev seen : Live
  seen = record { live = put m.id (record m { attempts = 0 }) v.live; order = v.order ++ m.id ∷ [] }

  see_new : see v (payload_from_message m) ≡ seen
  unfolding see payload_from_message
  see_new = let p = message_from_payload-payload_from_message m in rw (h.only m.id f, see, p) refl

  seen_first : apply_record j kind_enqueue w.body v ≡ some seen
  unfolding apply_record
  seen_first = rw (j.enqueue_back (payload_from_message m) w.body w.written) (ap some see_new)

  abbrev counted_live : Live
  counted_live = record { live = put m.id m seen.live; order = seen.order }

  counted_next : apply_record j kind_attempt w.count seen ≡ some counted_live
  unfolding apply_record count_attempt
  counted_next =
      let there : lookup m.id seen.live ≡ some (record m { attempts = 0 }) =
        lookup-put m.id m.id (record m { attempts = 0 }) v.live
        ∙ ground (arith, eq_iff m.id m.id) in
      rw (j.attempt_back (attempts_of m) w.count w.counted, there, count_attempt) refl

  one_applied : apply_all (apply_record j) ((kind_enqueue, w.body) ∷ []) v ≡ some seen
  unfolding apply_all
  one_applied = rw (seen_first, apply_all) refl

  two_applied :
      apply_all (apply_record j) ((kind_enqueue, w.body) ∷ (kind_attempt, w.count) ∷ []) v
      ≡ some counted_live
  unfolding apply_all
  two_applied = rw (seen_first, apply_all, counted_next) refl

  step :
      (u : Live) × (apply_all (apply_record j) (records_of j m w) v ≡ some u)
      × Holds u (ms ++ m ∷ [])
  unfolding apply_all records_of
  step = elim (Bool-cases (ltb 0 m.attempts)) [
    | inl e ↦ (
      counted_live,
      ap (λ r. apply_all (apply_record j) r v) (records e) ∙ two_applied,
      put-Holds v counted_live ms m h f refl (λ k.
          lookup-put m.id k m seen.live
          ∙ ground (arith, lookup-put m.id k (record m { attempts = 0 }) v.live)),
    )
    | inr e ↦ (
      seen,
      ap (λ r. apply_all (apply_record j) r v) (records e) ∙ one_applied,
      put-Holds v seen ms m h f refl (λ k.
          lookup-put m.id k (record m { attempts = 0 }) v.live
          ∙ ap (λ n. if str_eq m.id k then some (record m { attempts = n }) else lookup k v.live)
              (none_yet e)),
    )
  ]
    where
      records :
          {b : Bool}
          → ltb 0 m.attempts ≡ b
          → records_of j m w
            ≡ (kind_enqueue, w.body) ∷ (if b then (kind_attempt, w.count) ∷ [] else [])
      records e =
          ap (λ x. (kind_enqueue, w.body) ∷ (if x then (kind_attempt, w.count) ∷ [] else [])) e

      none_yet : ltb 0 m.attempts ≡ false → 0 ≡ m.attempts
      none_yet e = ground arith

abbrev pub AreWritten : Json → List Message → Type 0
AreWritten j [] = Unit
AreWritten j (m ∷ ms) = IsWritten j m × AreWritten j ms

unfoldable all_records : (j : Json) (ms : List Message) → AreWritten j ms → List (ℕ × List ℕ)
all_records j [] w = []
all_records j (m ∷ ms) (w, ws) = records_of j m w ++ all_records j ms ws

steps :
    (j : Json) (v : Live) (before ms : List Message) (w : AreWritten j ms)
    → Holds v before
    → AreApart before ms
    → (u : Live) × (apply_all (apply_record j) (all_records j ms w) v ≡ some u)
      × Holds u (before ++ ms)
unfolding all_records apply_all
steps j v before [] w h a = (v, refl, rw (append-nil before) h)
steps j v before (m ∷ ms) (w, ws) h (f, a) =
    let (u, e, hu) = step j v before h m w f in
    let (t, d, ht) = steps j u (before ++ m ∷ []) ms ws hu a in
    (
      t,
      apply_all-append j (records_of j m w) (all_records j ms ws) v
          ∙ ap (λ o. then_all j o (all_records j ms ws)) e
          ∙ d,
      rw (← append_assoc before (m ∷ []) ms) ht,
    )

encode_all-append :
    (xs ys : List (ℕ × List ℕ)) → encode_all (xs ++ ys) ≡ encode_all xs ++ encode_all ys
unfolding encode_all
encode_all-append [] ys = refl
encode_all-append ((kind, body) ∷ xs) ys =
    ap (◌++◌ (encode kind body)) (encode_all-append xs ys)
    ∙ sym (append_assoc (encode kind body) (encode_all xs) (encode_all ys))

compact_message :
    (j : Json) (m : Message) (w : IsWritten j m)
    → encode_all (records_of j m w) ≡ encode kind_enqueue w.body ++ compact_attempts j m
unfolding encode_all records_of compact_attempts
compact_message j m w =
    if_cases
      (λ r.
        encode_all ((kind_enqueue, w.body) ∷ r)
        ≡ encode kind_enqueue w.body ++ compact_attempts j m)
      (ltb 0 m.attempts)
      (λ e.
        ap (λ x. encode kind_enqueue w.body ++ x)
          (append-nil (encode kind_attempt w.count) ∙ sym (some_attempts e)))
      (λ e. ap (λ x. encode kind_enqueue w.body ++ x) (sym (no_attempts e)))
  where
    some_attempts : ltb 0 m.attempts ≡ true → compact_attempts j m ≡ encode kind_attempt w.count
    some_attempts e = rw (compact_attempts, w.counted, e) refl

    no_attempts : ltb 0 m.attempts ≡ false → compact_attempts j m ≡ []
    no_attempts e = rw (compact_attempts, e) refl

compact_messages_records :
    (j : Json) (ms : List Message) (w : AreWritten j ms)
    → compact_messages j ms ≡ some (encode_all (all_records j ms w))
unfolding compact_messages all_records encode_all
compact_messages_records j [] w = refl
compact_messages_records j (m ∷ ms) (w, ws) =
    let bytes = encode_all (all_records j ms ws) in
    let all_bytes =
      encode_all-append (records_of j m w) (all_records j ms ws)
      ∙ ap (λ x. x ++ bytes) (compact_message j m w)
      ∙ append_assoc (encode kind_enqueue w.body) (compact_attempts j m) bytes in
    rw (compact_messages, w.written, compact_messages_records j ms ws) (ap some (sym all_bytes))

records_of-Fits : (j : Json) (m : Message) (w : IsWritten j m) → All Fits (records_of j m w)
unfolding records_of
records_of-Fits j m w =
    (w.fits, if_cases (λ r. All Fits r) (ltb 0 m.attempts) (λ e. (w.small, tt)) (λ e. tt))

all_records-Fits :
    (j : Json) (ms : List Message) (w : AreWritten j ms) → All Fits (all_records j ms w)
unfolding all_records
all_records-Fits j [] w = tt
all_records-Fits j (m ∷ ms) (w, ws) =
    All-append Fits (records_of j m w) (all_records j ms ws) (records_of-Fits j m w)
      (all_records-Fits j ms ws)

empty-Holds : Holds nothing_live []
unfolding lookup
empty-Holds = record { order = refl; found = tt; only = λ k f. refl }

one_cut : 0 < length (encode 0 [])
unfolding encode put_uint32
one_cut = omega arith

-- Where the messages can be written and no two share an identifier, a log that is compacted to them,
-- with nothing written since the mark, is replayed to the same messages, attempts included, in the
-- same order, and no byte of it is cut.
pub replay_slot-compact :
    (j : Json) (file : List ℕ) (ms : List Message) (w : AreWritten j ms)
    → AreApart [] ms
    → (bytes : List ℕ) × (compact j file ms (length file) ≡ some bytes)
      × (replay_slot j bytes ≡ some (ms, bytes))
unfolding compact
replay_slot-compact j file ms w a =
    let rs = all_records j ms w in
    let (u, e, h) = steps j nothing_live [] ms w empty-Holds a in
    let nothing_since = drop-all (length file) file (omega arith) in
    let same : live_messages u.live u.order ≡ ms =
      ap (live_messages u.live) h.order ∙ live_messages_found u.live ms h.found in
    let read = replay_slot_torn j rs 0 [] 0 u (all_records-Fits j ms w) (omega arith) one_cut e in
    (
      encode_all rs,
      rw (compact_messages_records j ms w, compact, nothing_since, append-nil (encode_all rs)) refl,
      ap (replay_slot j) (sym (append-nil (encode_all rs)))
          ∙ read
          ∙ ap (λ x. some (x, encode_all rs)) same,
    )
