-- ===== src/Wal/Holding.antt =====
-- What a replay holds: these messages by identifier, in this order, and no other.
use ryuk_dpq.Base.{
  ℕ, ◌≤◌, ◌≡◌, refl, sym, ◌∙◌, ap, String, false, none, some, List, [], ◌∷◌, ◌++◌, if◌then◌else◌,
  length, All, All-append, arith, str_eq, eq_iff, map,
}
use ryuk_dpq.Base.Dict.{lookup}
use ryuk_dpq.Engine.Message.{Message}
use ryuk_dpq.Wal.Record.{max_record_bytes}
use ryuk_dpq.Wal.Replay.{Json, AttemptPayload, Live, live_messages, payload_from_message}

abbrev pub attempts_of : Message → AttemptPayload
attempts_of m = record { id = m.id; attempts = m.attempts; epoch = 0 }

-- The message and its attempts can be written, each in a record of at most the greatest size.
pub record IsWritten (j : Json) (m : Message) : Type 0 where
  pub body : List ℕ
  pub written : j.marshal_enqueue (payload_from_message m) ≡ some body
  pub fits : length body ≤ max_record_bytes
  pub count : List ℕ
  pub counted : j.marshal_attempt (attempts_of m) ≡ some count
  pub small : length count ≤ max_record_bytes

-- The identifier is none of these messages'.
abbrev pub IsFresh : String → List Message → Type 0
IsFresh k ms = All (λ m. str_eq k m.id ≡ false) ms

-- No message has the identifier of one before it, or of one of `seen`.
abbrev pub AreApart : List Message → List Message → Type 0
AreApart seen [] = Unit
AreApart seen (m ∷ ms) = IsFresh m.id seen × AreApart (seen ++ m ∷ []) ms

-- The replay has these messages, and no other.
pub record Holds (v : Live) (ms : List Message) : Type 0 where
  pub order : v.order ≡ map (λ m. m.id) ms
  pub found : All (λ m. lookup m.id v.live ≡ some m) ms
  pub only : (k : String) → IsFresh k ms → lookup k v.live ≡ none

pub str_eq_swap : (j k : String) → str_eq j k ≡ false → str_eq k j ≡ false
str_eq_swap j k h = ground (arith, eq_iff j k, eq_iff k j)

pub live_messages_found :
    (live : List (String × Message)) (ms : List Message)
    → All (λ m. lookup m.id live ≡ some m) ms
    → live_messages live (map (λ m. m.id) ms) ≡ ms
unfolding live_messages
live_messages_found live [] a = refl
live_messages_found live (m ∷ ms) (e, a) =
    rw (live_messages, e) (ap (◌∷◌ m) (live_messages_found live ms a))

-- The map `new` is `old` with the message put.
abbrev pub Puts : List (String × Message) → Message → List (String × Message) → Type 0
Puts old m new = (k : String) → lookup k new ≡ (if str_eq m.id k then some m else lookup k old)

pub found_still :
    (old new : List (String × Message)) (n : Message) (ms : List Message)
    → Puts old n new
    → IsFresh n.id ms
    → All (λ m. lookup m.id old ≡ some m) ms
    → All (λ m. lookup m.id new ≡ some m) ms
found_still old new n [] l f a = tt
found_still old new n (m ∷ ms) l (g, f) (e, a) =
    (l m.id ∙ ground (arith, e, g), found_still old new n ms l f a)

pub map_ids :
    (ms : List Message) (m : Message)
    → map (λ x. x.id) (ms ++ m ∷ []) ≡ map (λ x. x.id) ms ++ m.id ∷ []
map_ids [] m = refl
map_ids (x ∷ ms) m = ap (◌∷◌ x.id) (map_ids ms m)

pub IsFresh-parts :
    (k : String) (ms : List Message) (m : Message)
    → IsFresh k (ms ++ m ∷ [])
    → IsFresh k ms × (str_eq k m.id ≡ false)
IsFresh-parts k [] m (h, t) = (tt, h)
IsFresh-parts k (x ∷ ms) m (h, t) = let (a, b) = IsFresh-parts k ms m t in ((h, a), b)

-- What a state is after the message was put.
pub put-Holds :
    (v w : Live) (ms : List Message) (m : Message)
    → Holds v ms
    → IsFresh m.id ms
    → w.order ≡ v.order ++ m.id ∷ []
    → Puts v.live m w.live
    → Holds w (ms ++ m ∷ [])
put-Holds v w ms m h f o l = record {
  order = o ∙ ap (λ x. x ++ m.id ∷ []) h.order ∙ sym (map_ids ms m);
  found =
      All-append _ ms (m ∷ []) (found_still v.live w.live m ms l f h.found)
        (l m.id ∙ ground (arith, eq_iff m.id m.id), tt);
  only = λ k fresh.
      let (a, b) = IsFresh-parts k ms m fresh in
      l k ∙ ground (arith, str_eq_swap k m.id b, h.only k a);
}
