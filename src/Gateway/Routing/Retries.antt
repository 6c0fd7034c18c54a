-- ===== src/Gateway/Routing/Retries.antt =====
-- How often an owner is called, and what a move in between does to the caller.
use ryuk_dpq.Base.{
  ℕ, zero, suc, ◌+◌, ◌<◌, ◌≤◌, ◌≡◌, refl, String, false, none, List, [], ◌∷◌, arith, length,
}
use ryuk_dpq.Gateway.Routing.{
  code_moved, answered, refused, Try, move_backoff, after_refusal, owner_loop, with_owner,
}

-- The owner was found and answered that the slot has moved; the caller waited it out and read where to.
pub record MovedOn (A : Type 0) (t : Try A) : Type 0 where
  pub addr : String
  pub found : t.owner ≡ answered addr
  pub moved : t.answer ≡ refused code_moved
  pub waited : t.cancelled ≡ false
  pub read : t.reread ≡ none

module _ {A : Type 0} (tries : ℕ → Try A) where
  owner_loop_outlasts :
      (waits : List ℕ) (n k : ℕ) (a : A) (addr : String)
      → k ≤ length waits
      → ((i : ℕ) → i < k → MovedOn A (tries (n + i)))
      → (tries (n + k)).owner ≡ answered addr
      → (tries (n + k)).answer ≡ answered a
      → owner_loop tries waits n ≡ (answered a, suc (n + k))
  unfolding owner_loop after_refusal
  owner_loop_outlasts [] n k a addr h m o e =
      let none_left : n + k ≡ n = omega arith in
      let found : (tries n).owner ≡ answered addr = rw none_left at o in
      let came : (tries n).answer ≡ answered a = rw none_left at e in
      rw (none_left, owner_loop, found, came) refl
  owner_loop_outlasts (w ∷ ws) n zero a addr h m o e =
      let here : n + 0 ≡ n = omega arith in
      let found : (tries n).owner ≡ answered addr = rw here at o in
      let came : (tries n).answer ≡ answered a = rw here at e in
      rw (here, owner_loop, found, came) refl
  owner_loop_outlasts (w ∷ ws) n (suc k) a addr h m o e =
      let here : n + 0 ≡ n = omega arith in
      let shift : n + suc k ≡ suc n + k = omega arith in
      let first : MovedOn A (tries n) = rw here at (m 0 (omega arith)) in
      let found : (tries (suc n + k)).owner ≡ answered addr = rw shift at o in
      let came : (tries (suc n + k)).answer ≡ answered a = rw shift at e in
      let later =
        owner_loop_outlasts ws (suc n) k a addr (omega arith) (λ i lt. moved_later i lt) found
          came in
      rw (shift, owner_loop, first.found, first.moved, after_refusal, first.waited, first.read)
        later
    where
      moved_later : (i : ℕ) → i < k → MovedOn A (tries (suc n + i))
      moved_later i lt =
          let same : n + suc i ≡ suc n + i = omega arith in rw same at (m (suc i) (omega arith))

-- A slot that is handed over while it is called: where each of the first `k` tries finds an owner that
-- answers that the slot has moved, and the caller is not cancelled in the wait and can read the
-- settings again, and the next try is answered with a result, the caller gets the result after that try,
-- for any `k` of at most three.
pub with_owner_outlasts :
    {A : Type 0} (tries : ℕ → Try A) (k : ℕ) (a : A) (addr : String)
    → k ≤ 3
    → ((i : ℕ) → i < k → MovedOn A (tries i))
    → (tries k).owner ≡ answered addr
    → (tries k).answer ≡ answered a
    → with_owner tries ≡ (answered a, suc k)
unfolding with_owner
with_owner_outlasts tries k a addr h m o e =
    let start : 0 + k ≡ k = omega arith in
    let out =
      owner_loop_outlasts tries move_backoff 0 k a addr (omega arith)
        (λ i lt. let same : 0 + i ≡ i = omega arith in rw same (m i lt)) (rw start o)
        (rw start e) in
    rw start at out
