-- ===== src/Engine/Deque/Laws.antt =====
-- The deque refines a list: `all` is the abstract view, and each operation is the list's.
use ryuk_dpq.Base.{
  ℕ, zero, suc, ◌+◌, ◌-◌, ◌≤◌, ◌≡◌, refl, sym, ◌∙◌, ap, ◌⊎◌, ◌↔◌, inl, inr, true, Option, none,
  some, List, [], ◌∷◌, ◌++◌, arith, ltb, ==_iff, Option-cases, length, get_elem?, set, drop,
  length-append, length-set, length-drop, take-append, drop-concat, drop-get_elem?, get_elem?_lt,
  get_elem?_ge, drop-all, drop-set, get_elem?-drop, length-zero, drop-set_self,
}
use ryuk_dpq.Engine.Deque.{
  Zero, Deque, empty_deque, len, empty, push_back, push_front, compact, pop_front, front, at, all,
  prepend,
}

-- The head stays inside the buffer.
abbrev pub IsValid {ℓ} : {A : Type ℓ} → Deque A → Type 0
IsValid d = d.head ≤ length d.buf

pub empty_deque-IsValid {ℓ} : (A : Type ℓ) → IsValid (empty_deque {A = A})
unfolding empty_deque
empty_deque-IsValid A = omega arith

pub all-empty_deque {ℓ} : (A : Type ℓ) → all (empty_deque {A = A}) ≡ []
unfolding all empty_deque
all-empty_deque A = refl

module _ {ℓ} {A : Type ℓ} where
  pub len-all : (d : Deque A) → len d ≡ length (all d)
  unfolding len all
  len-all d = sym (length-drop d.head d.buf)

  pub push_back-IsValid : (d : Deque A) (v : A) → IsValid d → IsValid (push_back d v)
  unfolding push_back
  push_back-IsValid d v h = omega (arith, length-append d.buf (v ∷ []))

  pub all-push_back : (d : Deque A) (v : A) → IsValid d → all (push_back d v) ≡ all d ++ v ∷ []
  unfolding push_back all
  all-push_back d v h = drop-concat d.head d.buf (v ∷ []) h

  pub push_front-IsValid : (d : Deque A) (v : A) → IsValid d → IsValid (push_front d v)
  unfolding push_front
  push_front-IsValid d v h = ground (arith, length-set d.buf (d.head - 1) v)

  push_front_cells :
      (buf : List A) (n : ℕ) (v : A)
      → n ≤ length buf
      → all (push_front (record { buf = buf; head = n }) v) ≡ v ∷ drop n buf
  unfolding push_front all
  push_front_cells buf zero v h =
      let e : length (buf ++ v ∷ []) - 1 ≡ length buf = omega (arith, length-append buf (v ∷ [])) in
      ap (◌∷◌ v) (rw e (take-append buf (v ∷ [])))
  push_front_cells buf (suc n) v h =
      let e : suc n - 1 ≡ n = omega arith in
      let t : ltb 0 (suc n) ≡ true = ground arith in rw (t, e) (drop-set_self n buf v (omega arith))

  -- On a valid deque, push_front puts the entry in front of the view.
  pub all-push_front : (d : Deque A) (v : A) → IsValid d → all (push_front d v) ≡ v ∷ all d
  unfolding all
  all-push_front d v h = push_front_cells d.buf d.head v h

  pub prepend-IsValid : (d : Deque A) (vs : List A) → IsValid d → IsValid (prepend d vs)
  unfolding prepend
  prepend-IsValid d [] h = h
  prepend-IsValid d (v ∷ vs) h = omega arith

  pub all-prepend : (d : Deque A) (vs : List A) → all (prepend d vs) ≡ vs ++ all d
  unfolding prepend all
  all-prepend d [] = refl
  all-prepend d (v ∷ vs) = refl

  compact-IsValid : (buf : List A) (n : ℕ) → n ≤ length buf → IsValid (compact buf n)
  unfolding compact
  compact-IsValid buf n h = ground arith

  all-compact : (buf : List A) (n : ℕ) → all (compact buf n) ≡ drop n buf
  unfolding compact all
  all-compact buf n = ground arith

  -- The front of the view is what `front` reads, and `none` means an empty deque.
  pub front-all :
      (d : Deque A)
      → IsValid d
      → ((all d ≡ []) × (front d ≡ none))
        ⊎ ((v : A) × (rest : List A) × (all d ≡ v ∷ rest) × (front d ≡ some v))
  unfolding front all
  front-all d h = elim (Option-cases (get_elem? d.buf d.head)) [
    | inl gone ↦ inl (
      drop-all d.head d.buf (get_elem?_ge d.head d.buf gone),
      ground (arith, get_elem?_ge d.head d.buf gone),
    )
    | inr (v, here) ↦ inr (
      v,
      drop (suc d.head) d.buf,
      drop-get_elem? d.head d.buf here,
      ground (arith, get_elem?_lt d.head d.buf here),
    )
  ]

  -- `at` counts from the head.
  pub at-all : (d : Deque A) (i : ℕ) → at d i ≡ get_elem? (all d) i
  unfolding at all
  at-all d i = get_elem?-drop d.head d.buf i

  pub empty-all : (d : Deque A) → (empty d ≡ true) ↔ (all d ≡ [])
  unfolding empty
  empty-all d = (
    λ e. length-zero (all d) (omega (arith, (==_iff (len d) 0).0 e, len-all d)),
    λ e. (==_iff (len d) 0).1 (omega (arith, len-all d, ap length e)),
  )

  popped-all :
      (d : Deque A) (v z : A)
      → get_elem? d.buf d.head ≡ some v
      → all d ≡ v ∷ all (compact (set d.buf d.head z) (d.head + 1))
  unfolding all
  popped-all d v z here =
      let e : d.head + 1 ≡ suc d.head = omega arith in
      drop-get_elem? d.head d.buf here
      ∙ ap (◌∷◌ v)
          (sym (all-compact (set d.buf d.head z) (d.head + 1) ∙ rw e (drop-set d.head d.buf z)))

  module _ ⦃zero : Zero A⦄ where
    -- What `pop_front` does: nothing on an empty deque, and otherwise it takes the first entry off.
    abbrev pub Pops : Deque A → Option A × Deque A → Type ℓ
    Pops d r =
        ((all d ≡ []) × (r ≡ (none, d)))
        ⊎ ((v : A) × (e : Deque A) × (all d ≡ v ∷ all e) × IsValid e × (r ≡ (some v, e)))

    -- On a valid deque `pop_front` answers nothing exactly when the view is empty, and otherwise
    -- returns the first entry of the view and a valid deque of the others.
    pub pop_front-Pops : (d : Deque A) → IsValid d → Pops d (pop_front d)
    unfolding pop_front all
    pop_front-Pops d h = elim (Option-cases (get_elem? d.buf d.head)) [
      | inl gone ↦ inl (
        drop-all d.head d.buf (get_elem?_ge d.head d.buf gone),
        ground (arith, get_elem?_ge d.head d.buf gone),
      )
      | inr (v, here) ↦
          let room = get_elem?_lt d.head d.buf here in
          let size = length-set d.buf d.head zero.zero_value in
          inr (
            v,
            compact (set d.buf d.head zero.zero_value) (d.head + 1),
            popped-all d v zero.zero_value here,
            compact-IsValid _ (d.head + 1) (omega arith),
            ground arith,
          )
    ]

    -- The same, by the two parts of the result.
    pub pop_front_cases :
        (d : Deque A)
        → IsValid d
        → ((all d ≡ []) × ((pop_front d).0 ≡ none))
          ⊎ ((v : A) × ((pop_front d).0 ≡ some v)
              × (all d ≡ v ∷ all (pop_front d).1)
              × IsValid (pop_front d).1)
    pop_front_cases d h = elim (pop_front-Pops d h) [
      | inl (e, p) ↦ inl (e, ap (λ r. r.0) p)
      | inr (v, e, a, ok, p) ↦ inr (v, ap (λ r. r.0) p, rw p a, rw p ok)
    ]
