-- ===== src/Gateway/Routing.antt =====
-- backend/gateway/logic/routing-logic.go and dequeue-logic.go: a call to the owner of a slot, the
-- owners of a distributed queue in the order in which they are asked for messages, and one take. What
-- the other processes answer is an argument.
pub mod Retries
pub mod Takes
use ryuk_dpq.Base.{
  ℕ, zero, suc, ◌+◌, ◌*◌, String, Bool, true, false, not, ◌&&◌, ◌||◌, Option, none, some, List, [],
  ◌∷◌, ◌==◌, ltb, if◌then◌else◌, length, str_eq,
}
use ryuk_dpq.Base.Int.{ℤ, pos, negsuc}
use ryuk_dpq.Placement.{Member}

-- The codes of enterr that the code tells apart.
pub data Code : Type 0 where
  code_moved : Code
  code_exhausted : Code
  code_not_found : Code
  code_conflict : Code
  code_invalid : Code
  code_other : Code

pub data Answer (A : Type 0) : Type 0 where
  answered : A → Answer A
  refused : Code → Answer A

-- What one try of withOwner meets: the owner, its answer, whether the context ends during the wait, and
-- the settings that are read again.
pub record Try (A : Type 0) : Type 0 where
  pub owner : Answer String
  pub answer : Answer A
  pub cancelled : Bool
  pub reread : Option Code

abbrev pub is_moved : Code → Bool
is_moved code_moved = true
is_moved _ = false

-- In milliseconds.
abbrev pub move_backoff : List ℕ
move_backoff = 5 ∷ 25 ∷ 100 ∷ []

module _ {A : Type 0} (tries : ℕ → Try A) where
  -- A call was answered with an error; after a wait it may be tried again.
  unfoldable pub after_refusal : Try A → Code → Answer A × ℕ → ℕ → Answer A × ℕ
  after_refusal t code again attempt =
      let reread = elim t.reread as (λ _. Answer A × ℕ) [
        | some error ↦ (refused error, suc attempt)
        | none ↦ again
      ] in
      if not (is_moved code)
      then (refused code, suc attempt)
      else if t.cancelled
      then (refused code_other, suc attempt)
      else reread

  -- The result, and the number of tries. The last try has no wait after it.
  unfoldable pub owner_loop : List ℕ → ℕ → Answer A × ℕ
  unfolding after_refusal
  owner_loop [] attempt = elim (tries attempt).owner as (λ _. Answer A × ℕ) [
    | refused code ↦ (refused code, attempt)
    | answered addr ↦ ((tries attempt).answer, suc attempt)
  ]
  owner_loop (wait ∷ waits) attempt =
      let again = owner_loop waits (suc attempt) in
      elim (tries attempt).owner as (λ _. Answer A × ℕ) [
        | refused code ↦ (refused code, attempt)
        | answered addr ↦ elim (tries attempt).answer as (λ _. Answer A × ℕ) [
          | answered a ↦ (answered a, suc attempt)
          | refused code ↦ after_refusal (tries attempt) code again attempt
        ]
      ]

  unfoldable pub with_owner : Answer A × ℕ
  with_owner = owner_loop move_backoff 0

-- One owner of a queue: what its node last told of the most urgent message that is ready, -1 for none
-- or for nothing told, and of how many are.
pub record Owner : Type 0 where
  pub addr : String
  pub top : ℤ
  pub score : ℕ

abbrev pub above : ℤ → ℤ → Bool
above (pos a) (pos b) = ltb b a
above (pos a) (negsuc b) = true
above (negsuc a) (pos b) = false
above (negsuc a) (negsuc b) = ltb a b

abbrev pub same_top : ℤ → ℤ → Bool
same_top (pos a) (pos b) = a == b
same_top (negsuc a) (negsuc b) = a == b
same_top _ _ = false

-- Depth only breaks the tie.
unfoldable pub asked_before : Owner → Owner → Bool
asked_before a b = if not (same_top a.top b.top) then above a.top b.top else ltb b.score a.score

unfoldable pub insert_owner : Owner → List Owner → List Owner
insert_owner a [] = a ∷ []
insert_owner a (b ∷ bs) =
    let rest = insert_owner a bs in if asked_before b a then b ∷ rest else a ∷ b ∷ bs

unfoldable pub sort_owners : List Owner → List Owner
unfolding insert_owner
sort_owners [] = []
sort_owners (o ∷ os) = insert_owner o (sort_owners os)

-- What a node last told of a queue.
pub record NodeStats : Type 0 where
  pub top_ready : ℤ
  pub ready : ℕ × ℕ × ℕ

unfoldable pub seen_id : String → List String → Bool
seen_id k [] = false
seen_id k (j ∷ js) = str_eq j k || seen_id k js

unfoldable pub owner_of : Member → Option NodeStats → Owner
owner_of m none = record { addr = m.addr; top = negsuc 0; score = 0 }
owner_of m (some st) =
    let (low, medium, high) = st.ready in
    record { addr = m.addr; top = st.top_ready; score = high * 1000 + medium * 100 + low }

module _ (member : String → Option Member) (told : String → Option NodeStats) where
  -- The owners of the slots, in the order in which the map gives them; those that are up, each once.
  unfoldable pub gather_owners : List String → List String → List Owner
  unfolding seen_id owner_of
  gather_owners seen [] = []
  gather_owners seen (id ∷ ids) =
      let others = gather_owners (id ∷ seen) ids in
      let with_it = elim (member id) as (λ _. List Owner) [
        | none ↦ others
        | some m ↦ owner_of m (told id) ∷ others
      ] in
      if str_eq id "" || seen_id id seen then gather_owners seen ids else with_it

  unfoldable pub ranked_owners : List String → List Owner
  unfolding sort_owners
  ranked_owners ids = sort_owners (gather_owners [] ids)

-- One take from a distributed queue: the owners in their order; an owner that fails is passed over.
module _ {A : Type 0} (ask : String → Answer (List A)) where
  unfoldable pub take_loop : List Owner → Option Code → ℕ → Answer (List A)
  take_loop [] none n = answered []
  take_loop [] (some error) n = if n == 0 then refused error else answered []
  take_loop (o ∷ os) error n = elim (ask o.addr) as (λ _. Answer (List A)) [
    | refused code ↦ take_loop os (some code) n
    | answered [] ↦ take_loop os error (n + 1)
    | answered (m ∷ ms) ↦ answered (m ∷ ms)
  ]

  unfoldable pub take_distributed : List Owner → Answer (List A)
  take_distributed ranked = take_loop ranked none 0
