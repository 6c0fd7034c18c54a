-- ===== src/Engine/Migrate/Sorting.antt =====
-- The order in which Absorb takes messages: the last has the greatest number.
use ryuk_dpq.Base.{ℕ, ◌≤◌, ◌<◌, ◌+◌, ◌≡◌, refl, total, List, [], ◌∷◌, arith, if_cases, ltb, All}
use ryuk_dpq.Engine.Message.{Message}
use ryuk_dpq.Engine.Handoff.{insert_by_seq, sort_by_seq}
use ryuk_dpq.Engine.Migrate.{last_seq}

-- No number is above this one.
abbrev pub IsBelow : ℕ → List Message → Type 0
IsBelow n ms = All (λ m. m.seq ≤ n) ms

pub IsBelow-le : (n k : ℕ) (ms : List Message) → n ≤ k → IsBelow n ms → IsBelow k ms
IsBelow-le n k [] h b = tt
IsBelow-le n k (m ∷ ms) h b = (omega (arith, b.0), IsBelow-le n k ms h b.1)

-- The sorted messages end in the greatest number.
abbrev IsTopped : List Message → Type 0
IsTopped ms = IsBelow (last_seq ms) ms

last_seq-insert :
    (x m : Message) (ms : List Message)
    → last_seq (x ∷ insert_by_seq m ms) ≡ last_seq (insert_by_seq m ms)
unfolding last_seq insert_by_seq
last_seq-insert x m [] = refl
last_seq-insert x m (y ∷ ys) = ground arith

All-insert :
    (P : Message → Type 0) (m : Message) (ms : List Message)
    → All P (insert_by_seq m ms)
    → P m × All P ms
unfolding insert_by_seq
All-insert P m [] h = h
All-insert P m (x ∷ xs) h =
    if_cases (λ l. All P l → P m × (P x × All P xs)) (ltb x.seq m.seq)
      (λ _ k. let (a, b) = All-insert P m xs k.1 in (a, (k.0, b))) (λ _ k. k) h

All-sort : (P : Message → Type 0) (ms : List Message) → All P (sort_by_seq ms) → All P ms
unfolding sort_by_seq
All-sort P [] h = h
All-sort P (m ∷ ms) h = let (a, b) = All-insert P m (sort_by_seq ms) h in (a, All-sort P ms b)

tail-IsTopped : (x : Message) (xs : List Message) → IsTopped (x ∷ xs) → IsTopped xs
unfolding last_seq
tail-IsTopped x [] h = tt
tail-IsTopped x (y ∷ ys) h = h.1

insert-IsTopped : (m : Message) (ms : List Message) → IsTopped ms → IsTopped (insert_by_seq m ms)
unfolding last_seq insert_by_seq
insert-IsTopped m [] h = (omega arith, tt)
insert-IsTopped m (x ∷ xs) h =
    if_cases IsTopped (ltb x.seq m.seq)
      (λ e.
        let inner = insert-IsTopped m xs (tail-IsTopped x xs h) in
        let ends = last_seq-insert x m xs in
        let top = (All-insert (λ y. y.seq ≤ last_seq (insert_by_seq m xs)) m xs inner).0 in
        let less : x.seq < m.seq = ground (arith, e) in
        (
          omega (arith, top, less, ends),
          IsBelow-le (last_seq (insert_by_seq m xs)) _ (insert_by_seq m xs) (omega (arith, ends))
              inner,
        ))
      (λ e. let less : m.seq ≤ x.seq = ground (arith, e) in (omega (arith, less, h.0), h))

sort-IsTopped : (ms : List Message) → IsTopped (sort_by_seq ms)
unfolding sort_by_seq
sort-IsTopped [] = tt
sort-IsTopped (m ∷ ms) = insert-IsTopped m (sort_by_seq ms) (sort-IsTopped ms)

pub last_seq-sort_by_seq-IsBelow : (ms : List Message) → IsBelow (last_seq (sort_by_seq ms)) ms
last_seq-sort_by_seq-IsBelow ms =
    All-sort (λ m. m.seq ≤ last_seq (sort_by_seq ms)) ms (sort-IsTopped ms)

-- The order does not change what there is.
total-insert_by_seq :
    (w : Message → ℕ) (m : Message) (ms : List Message)
    → total w (insert_by_seq m ms) ≡ w m + total w ms
unfolding insert_by_seq
total-insert_by_seq w m [] = refl
total-insert_by_seq w m (x ∷ xs) = ground (arith, total-insert_by_seq w m xs)

pub total-sort_by_seq :
    (w : Message → ℕ) (ms : List Message) → total w (sort_by_seq ms) ≡ total w ms
unfolding sort_by_seq
total-sort_by_seq w [] = refl
total-sort_by_seq w (m ∷ ms) =
    omega (arith, total-insert_by_seq w m (sort_by_seq ms), total-sort_by_seq w ms)
