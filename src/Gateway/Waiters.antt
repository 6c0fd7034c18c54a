-- ===== src/Gateway/Waiters.antt =====
-- backend/gateway/logic/dequeue-wait-logic.go: parked consumers and the wakes that they are handed. A
-- channel of capacity one is its identity and whether it holds a wake. Each call is one step, under the
-- mutex; a consumer that is woken receives from its own channel.
pub mod Delivery
pub mod Wakes
use ryuk_dpq.Base.{
  ℕ, zero, suc, ◌+◌, ◌-◌, ◌%◌, ◌^◌, String, Bool, true, false, not, Option, none, some, List, [],
  ◌∷◌, ◌++◌, ◌==◌, if◌then◌else◌, length, get_elem?, set,
}
use ryuk_dpq.Base.Dict.{lookup, put, delete}
use ryuk_dpq.Placement.{Member}

pub record Waiter : Type 0 where
  pub ch : ℕ
  pub full : Bool

pub record Waiters : Type 0 where
  pub m : List (String × List Waiter)
  pub next : List (String × ℕ)

-- A key that is not in the map has no waiters, and starts at the first.
abbrev pub waiting : Waiters → String → List Waiter
waiting w k = elim (lookup k w.m) [ none ↦ [] | some list ↦ list ]

abbrev pub next_of : Waiters → String → ℕ
next_of w k = elim (lookup k w.next) [ none ↦ 0 | some n ↦ n ]

unfoldable pub park : Waiters → String → ℕ → Waiters
park w k ch = record w { m = put k (waiting w k ++ record { ch = ch; full = false } ∷ []) w.m }

-- The first of `n` waiters, from the `i`th on and round the list, that holds no wake.
unfoldable pub find_free : ℕ → ℕ → List Waiter → Option ℕ
find_free zero i list = none
find_free (suc n) i list =
    let rest = find_free n (i + 1) list in
    elim (get_elem? list (i % length list)) [
      | none ↦ rest
      | some c ↦ (if c.full then rest else some (i % length list))
    ]

-- The waiter's channel is handed a wake.
unfoldable pub hand : List Waiter → ℕ → List Waiter
hand list i = elim (get_elem? list i) [
  | none ↦ list
  | some c ↦ set list i (record c { full = true })
]

unfoldable pub deliver : Waiters → String → Waiters
deliver w k =
    let list = waiting w k in
    let n = length list in
    let found : Waiters = elim (find_free n (next_of w k % n) list) [
      | none ↦ w
      | some i ↦ record { m = put k (hand list i) w.m; next = put k ((i + 1) % n) w.next }
    ] in
    if n == 0 then w else found

unfoldable pub wake : Waiters → String → Waiters
wake w k = deliver w k

unfoldable pub without : ℕ → List Waiter → List Waiter
without ch [] = []
without ch (c ∷ cs) = if c.ch == ch then cs else c ∷ without ch cs

-- Whether the channel holds a wake; the list has it once.
unfoldable pub holds_wake : ℕ → List Waiter → Bool
holds_wake ch [] = false
holds_wake ch (c ∷ cs) = if c.ch == ch then c.full else holds_wake ch cs

-- The last to leave takes the key away; a wake that was not claimed is passed on.
unfoldable pub unpark : Waiters → String → ℕ → Waiters
unpark w k ch =
    let left = without ch (waiting w k) in
    let w1 = record w { m = put k left w.m } in
    if length left == 0
    then record { m = delete k w.m; next = delete k w.next }
    else if holds_wake ch (waiting w k)
    then deliver w1 k
    else w1

-- A consumer takes its wake.
unfoldable pub receive_from : ℕ → List Waiter → List Waiter
receive_from ch [] = []
receive_from ch (c ∷ cs) =
    if c.ch == ch then record c { full = false } ∷ cs else c ∷ receive_from ch cs
