-- ===== src/Engine/Deque.antt =====
-- backend/queue/logic/engine/deque.go: the FIFO behind priority bands and group message lists.
-- A cell that has been popped holds the zero value of its type, which is an instance argument.
pub mod Laws
use ryuk_dpq.Base.{
  ℕ, suc, ◌+◌, ◌-◌, ◌*◌, ◌≤◌, Bool, ◌&&◌, Option, none, some, List, [], ◌∷◌, ◌++◌, ltb, leb, ◌==◌,
  if◌then◌else◌, length, get_elem?, set, take, drop,
}

pub record Zero {ℓ} (A : Type ℓ) : Type ℓ where
  pub zero_value : A

pub record Deque {ℓ} (A : Type ℓ) : Type ℓ where
  pub buf : List A
  pub head : ℕ

module _ {ℓ} {A : Type ℓ} where
  unfoldable pub empty_deque : Deque A
  empty_deque = record { buf = []; head = 0 }

  unfoldable pub len : Deque A → ℕ
  len d = length d.buf - d.head

  unfoldable pub empty : Deque A → Bool
  unfolding len
  empty d = len d == 0

  unfoldable pub push_back : Deque A → A → Deque A
  push_back d v = record d { buf = d.buf ++ v ∷ [] }

  -- `append`, then `copy(buf[1:], buf[:len-1])`, then the write at index 0.
  unfoldable pub push_front : Deque A → A → Deque A
  push_front d v =
      let grown = d.buf ++ v ∷ [] in
      if ltb 0 d.head
      then record { buf = set d.buf (d.head - 1) v; head = d.head - 1 }
      else record { buf = v ∷ take (length grown - 1) grown; head = d.head }

  -- The buffer is compacted once more than 32 cells and at least half of it are spent.
  unfoldable pub compact : List A → ℕ → Deque A
  compact buf head =
      if ltb 32 head && leb (length buf) (head * 2)
      then record { buf = drop head buf; head = 0 }
      else record { buf = buf; head = head }

  -- The read is in range, since the head is not past the end of a deque that the code builds.
  unfoldable pub pop_cell : A → Deque A → Option A → Option A × Deque A
  unfolding compact
  pop_cell z d none = (none, d)
  pop_cell z d (some v) = (some v, compact (set d.buf d.head z) (d.head + 1))

  unfoldable pub pop_front : ⦃zero : Zero A⦄ → Deque A → Option A × Deque A
  unfolding pop_cell
  pop_front ⦃zero⦄ d =
      if d.head == length d.buf
      then (none, d)
      else pop_cell zero.zero_value d (get_elem? d.buf d.head)

  unfoldable pub front : Deque A → Option A
  front d = if d.head == length d.buf then none else get_elem? d.buf d.head

  unfoldable pub at : Deque A → ℕ → Option A
  at d i = get_elem? d.buf (d.head + i)

  unfoldable pub all : Deque A → List A
  all d = drop d.head d.buf

  unfoldable pub prepend : Deque A → List A → Deque A
  prepend d [] = d
  prepend d (v ∷ vs) = record { buf = (v ∷ vs) ++ drop d.head d.buf; head = 0 }
