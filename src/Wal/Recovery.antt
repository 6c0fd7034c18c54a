-- ===== src/Wal/Recovery.antt =====
-- Recovery: what a replay makes of a log whose last write may have been cut short.
use ryuk_dpq.Base.{
  ℕ, zero, suc, ◌+◌, ◌<◌, ◌≤◌, ◌≡◌, refl, ◌∙◌, ap, Bool, true, false, Option, none, some, List, [],
  ◌∷◌, ◌++◌, ◌==◌, if◌then◌else◌, Option-cases, ◌⊎◌, inl, inr, length, take, All, arith,
  length-append, take-append,
}
use mathlib.Core.List.{append_assoc}
use ryuk_dpq.Wal.Record.{
  header_len, max_record_bytes, encode, put_uint32, Read, eof, torn, read_record,
}
use ryuk_dpq.Wal.Framing.{read_record-encode, read_record_torn}
use ryuk_dpq.Wal.Replay.{
  Json, Live, nothing_live, live_messages, apply_record, replay_loop, replay_slot,
}

-- The bytes of a sequence of whole records.
unfoldable pub encode_all : List (ℕ × List ℕ) → List ℕ
encode_all [] = []
encode_all ((kind, body) ∷ rs) = encode kind body ++ encode_all rs

abbrev pub Fits : ℕ × List ℕ → Type 0
Fits (kind, body) = length body ≤ max_record_bytes

length-encode : (kind : ℕ) (body : List ℕ) → length (encode kind body) ≡ header_len + length body
unfolding encode put_uint32
length-encode kind body = omega arith

-- The effect of whole records, one after the other.
unfoldable pub apply_all :
    {S : Type 0} → (ℕ → List ℕ → S → Option S) → List (ℕ × List ℕ) → S → Option S
apply_all apply [] v = some v
apply_all apply ((kind, body) ∷ rs) v = elim (apply kind body v) [
  | none ↦ none
  | some w ↦ apply_all apply rs w
]

abbrev pub finished : {S : Type 0} → Option S → ℕ → Option (S × ℕ)
finished none n = none
finished (some v) n = some (v, n)

module _ {S : Type 0} (apply : ℕ → List ℕ → S → Option S) where
  -- The loop reads all whole records and stops before a tail that is empty or torn.
  replay_loop_whole :
      (f : ℕ) (rs : List (ℕ × List ℕ)) (tail : List ℕ) (good : ℕ) (v : S)
      → All Fits rs
      → (read_record tail ≡ eof) ⊎ (read_record tail ≡ torn)
      → length (encode_all rs) < f
      → replay_loop apply f (encode_all rs ++ tail) good v
        ≡ finished (apply_all apply rs v) (good + length (encode_all rs))
  unfolding replay_loop apply_all encode_all
  replay_loop_whole zero rs tail good v fit ends h = absurd (omega arith)
  replay_loop_whole (suc f) [] tail good v fit ends h =
      let same : good + 0 ≡ good = omega arith in
      elim ends [ inl e ↦ rw (e, replay_loop, same) refl | inr e ↦ rw (e, replay_loop, same) refl ]
  replay_loop_whole (suc f) ((kind, body) ∷ rs) tail good v (fits, fit) ends h =
      let size = length-encode kind body in
      let both = length-append (encode kind body) (encode_all rs) in
      let apart = append_assoc (encode kind body) (encode_all rs) tail in
      let first = read_record-encode kind body (encode_all rs ++ tail) fits in
      elim (Option-cases (apply kind body v)) [
        | inl e ↦ rw (apart, first, replay_loop, e, apply_all) refl
        | inr (w, e) ↦
            let rest =
              replay_loop_whole f rs tail (good + (header_len + length body)) w fit ends
                (omega arith) in
            let sum : good + (header_len + length body) + length (encode_all rs)
                ≡ good + length (encode kind body ++ encode_all rs) =
              omega arith in
            rw (apart, first, replay_loop, e, apply_all)
              (rest ∙ ap (finished (apply_all apply rs w)) sum)
      ]

  -- A log whose last write was cut short, read whole.
  pub replay_loop_torn :
      (rs : List (ℕ × List ℕ)) (kind : ℕ) (body : List ℕ) (k : ℕ) (v : S)
      → All Fits rs
      → length body ≤ max_record_bytes
      → k < length (encode kind body)
      → let file = encode_all rs ++ take k (encode kind body) in
        replay_loop apply (suc (length file)) file 0 v
        ≡ finished (apply_all apply rs v) (length (encode_all rs))
  replay_loop_torn rs kind body k v fit fits cut =
      let tail = take k (encode kind body) in
      let ends = tail_ends (k == 0) (read_record tail) (read_record_torn kind body k fits cut) in
      let enough : length (encode_all rs) < suc (length (encode_all rs ++ tail)) =
        omega (arith, length-append (encode_all rs) tail) in
      let sum : 0 + length (encode_all rs) ≡ length (encode_all rs) = omega arith in
      replay_loop_whole _ rs tail 0 v fit ends enough ∙ ap (finished (apply_all apply rs v)) sum
    where
      tail_ends : (b : Bool) (r : Read) → r ≡ (if b then eof else torn) → (r ≡ eof) ⊎ (r ≡ torn)
      tail_ends true r e = inl e
      tail_ends false r e = inr e

-- The log of whole records whose last write was cut short, anywhere or at its very start: where the
-- payloads of the whole records decode, the replay finds the messages that those leave live, and
-- cuts the file back to them, so that the next append starts clean.
pub replay_slot_torn :
    (j : Json) (rs : List (ℕ × List ℕ)) (kind : ℕ) (body : List ℕ) (k : ℕ) (v : Live)
    → All Fits rs
    → length body ≤ max_record_bytes
    → k < length (encode kind body)
    → apply_all (apply_record j) rs nothing_live ≡ some v
    → replay_slot j (encode_all rs ++ take k (encode kind body))
      ≡ some (live_messages v.live v.order, encode_all rs)
unfolding replay_slot
replay_slot_torn j rs kind body k v fit fits cut e =
    let tail = take k (encode kind body) in
    let read = replay_loop_torn (apply_record j) rs kind body k nothing_live fit fits cut in
    rw (read, replay_slot, e, take-append (encode_all rs) tail) refl
