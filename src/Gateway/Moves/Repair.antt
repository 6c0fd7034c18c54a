-- ===== src/Gateway/Moves/Repair.antt =====
-- What a pass of the reconciler leaves as it is, and what it repairs.
use ryuk_dpq.Base.{
  ℕ, ◌<◌, ◌≡◌, refl, sym, ◌∙◌, String, Bool, true, false, not, ◌&&◌, List, [], ◌∷◌, ◌++◌, inl, inr,
  arith, if◌then◌else◌, Bool-cases, str_eq, eq_iff, ltb, subst, if_cases,
}
use ryuk_dpq.Gateway.Moves.{
  Call, done, Slots, Node, World, is_empty, call, discard, thaw, at_node, Report, report, orphaned,
  stranded, repair, repair_all, reconcile,
}
use ryuk_dpq.Gateway.Moves.Holding.{and_false, call-preserves, at_node-other, at_node-same}

-- The node has the slot in service if it owns it, and nothing of it if another node owns it.
abbrev pub IsClean : {M : Type 0} → (ℕ → String) → String → ℕ → Node M → Type 0
IsClean place k i n =
    (str_eq (place i) k ≡ true → n.frozen i ≡ false)
    × (str_eq (place i) "" ≡ false → str_eq (place i) k ≡ false → n.held i ≡ [])

-- What the report does not name of the slot is not there.
abbrev Covers : {M : Type 0} → Report → ℕ → Node M → Type 0
Covers r i n = (r.has i ≡ false → n.held i ≡ []) × (r.out i ≡ false → n.frozen i ≡ false)

module _ {M : Type 0} where
  -- What is true of a node before a repair of any node, and is kept by thawing and by discarding on it,
  -- is true after it.
  repair-node :
      (P : Node M → Type 0) (k j : String) (r : Report) (a d : Call) (w : World M)
      → (str_eq k j ≡ true → (n : Node M) → P n → P (thaw (stranded w.owner j r) n))
      → (str_eq k j ≡ true → (n : Node M) → P n → P (discard (orphaned w.owner j r) n))
      → P (w.nodes k)
      → P ((repair j r a d w).nodes k)
  unfolding repair
  repair-node P k j r a d w t c p =
      let f = thaw {M = M} (stranded w.owner j r) in
      let w1 : World M = call a (at_node j f) w in
      let p1 : P (w1.nodes k) =
        call-preserves (λ u. P (u.nodes k)) a (at_node j f) w p (at f t w p) in
      let o1 : w1.owner ≡ w.owner =
        call-preserves (λ u. u.owner ≡ w.owner) a (at_node j f) w refl refl in
      let g = discard {M = M} (orphaned w.owner j r) in
      call-preserves (λ u. P (u.nodes k)) d (at_node j g) w1 p1 (at g c w1 p1)
    where
      at :
          (f : Node M → Node M)
          → (str_eq k j ≡ true → (n : Node M) → P n → P (f n))
          → (u : World M) → P (u.nodes k)
          → P ((at_node j f u).nodes k)
      at f h u q = elim (Bool-cases (str_eq k j)) [
        | inr e ↦ rw (at_node-other j k f u e) q
        | inl e ↦
            let s : k ≡ j = (eq_iff k j).0 e in
            rw (s, at_node-same j f u) (h e (u.nodes j) (rw s at q))
      ]

  repair-owner :
      (k : String) (r : Report) (a d : Call) (w : World M) → (repair k r a d w).owner ≡ w.owner
  unfolding repair
  repair-owner k r a d w =
      let thawed = at_node k (thaw {M = M} (stranded w.owner k r)) in
      let same : (call a thawed w).owner ≡ w.owner =
        call-preserves (λ u. u.owner ≡ w.owner) a thawed w refl refl in
      call-preserves (λ u. u.owner ≡ w.owner) d (at_node k (discard (orphaned w.owner k r)))
        (call a thawed w) same same

  repair-held :
      (i : ℕ) (ms : List M) (k : String) (r : Report) (a d : Call) (w : World M)
      → (w.nodes (w.owner i)).held i ≡ ms
      → ((repair k r a d w).nodes (w.owner i)).held i ≡ ms
  unfolding thaw discard orphaned
  repair-held i ms k r a d w h =
      repair-node (λ n. n.held i ≡ ms) (w.owner i) k r a d w (λ e n p. p)
        (λ e n p. rw (e, and_false) p) h

  -- A pass takes away nothing that its node is to serve, whatever the reports say.
  repair_all-held :
      (i : ℕ) (ms : List M) (rs : List (String × Report × Call × Call)) (w : World M)
      → (w.nodes (w.owner i)).held i ≡ ms
      → ((repair_all rs w).nodes ((repair_all rs w).owner i)).held i ≡ ms
  unfolding repair_all
  repair_all-held i ms [] w h = h
  repair_all-held i ms ((k, r, a, d) ∷ rs) w h =
      repair_all-held i ms rs (repair k r a d w)
        (rw (repair-owner k r a d w) (repair-held i ms k r a d w h))

  Shrinks : Node M → Node M → ℕ → Type 0
  Shrinks n n' i = (n.held i ≡ [] → n'.held i ≡ []) × (n.frozen i ≡ false → n'.frozen i ≡ false)

  thaw-Shrinks : (s : Slots) (n : Node M) (i : ℕ) → Shrinks n (thaw s n) i
  unfolding thaw Shrinks
  thaw-Shrinks s n i = (λ h. h, λ h. rw h (and_false _))

  discard-Shrinks : (s : Slots) (n : Node M) (i : ℕ) → Shrinks n (discard s n) i
  unfolding discard Shrinks
  discard-Shrinks s n i = (λ h. rw h (same (s i)), λ h. rw h (and_false _))
    where
      same : (b : Bool) → if◌then◌else◌ {A = List M} b [] [] ≡ []
      same true = refl
      same false = refl

  -- What only ever says that something is gone is kept by a repair.
  repair-shrinks :
      (P : Node M → Type 0) (i : ℕ) (k j : String) (r : Report) (a d : Call) (w : World M)
      → ((n n' : Node M) → Shrinks n n' i → P n → P n')
      → P (w.nodes k)
      → P ((repair j r a d w).nodes k)
  repair-shrinks P i k j r a d w up p =
      repair-node P k j r a d w
        (λ e n q. up n (thaw (stranded w.owner j r) n) (thaw-Shrinks (stranded w.owner j r) n i) q)
        (λ e n q.
          up n (discard (orphaned w.owner j r) n) (discard-Shrinks (orphaned w.owner j r) n i) q)
        p

  IsClean-up :
      (place : ℕ → String) (k : String) (i : ℕ) (n n' : Node M)
      → Shrinks n n' i
      → IsClean place k i n
      → IsClean place k i n'
  unfolding Shrinks
  IsClean-up place k i n n' (h, f) (c, c') = (λ e. f (c e), λ e e'. h (c' e e'))

  Covers-up : (r : Report) (i : ℕ) (n n' : Node M) → Shrinks n n' i → Covers r i n → Covers r i n'
  unfolding Shrinks
  Covers-up r i n n' (h, f) (c, c') = (λ e. h (c e), λ e. f (c' e))

  repair-IsClean :
      (i : ℕ) (k : String) (r : Report) (w : World M)
      → Covers r i (w.nodes k)
      → IsClean w.owner k i ((repair k r done done w).nodes k)
  unfolding repair thaw discard stranded orphaned
  repair-IsClean i k r w (c, c') =
      let kk : str_eq k k ≡ true = (eq_iff k k).1 refl in
      rw kk (λ e. rw e (back (r.out i) _ _ c'), λ e e'. rw (e, e') (gone (r.has i) _ c))
    where
      back :
          (out orphan f : Bool)
          → (out ≡ false → f ≡ false)
          → not orphan && (not (out && true) && f) ≡ false
      back true orphan f h = and_false _
      back false orphan f h = rw (h refl) (and_false _)

      gone :
          (has : Bool) (xs : List M)
          → (has ≡ false → xs ≡ [])
          → (if has && true && true then [] else xs) ≡ []
      gone true xs h = refl
      gone false xs h = h refl

  -- A pass with a report that covers the node, whose two calls are carried out.
  repair_all-IsClean :
      (i : ℕ) (k : String) (r : Report) (place : ℕ → String)
      (rs ss : List (String × Report × Call × Call)) (w : World M)
      → w.owner ≡ place
      → Covers r i (w.nodes k)
      → IsClean place k i ((repair_all (rs ++ (k, r, done, done) ∷ ss) w).nodes k)
  unfolding repair_all
  repair_all-IsClean i k r place [] ss w p c =
      stays ss (repair k r done done w)
        (subst (λ q. IsClean q k i ((repair k r done done w).nodes k)) p (repair-IsClean i k r w c))
    where
      stays :
          (ss : List (String × Report × Call × Call)) (u : World M)
          → IsClean place k i (u.nodes k)
          → IsClean place k i ((repair_all ss u).nodes k)
      stays [] u h = h
      stays ((j, r', a, d) ∷ ss) u h =
          stays ss (repair j r' a d u)
            (repair-shrinks (IsClean place k i) i k j r' a d u (IsClean-up place k i) h)
  repair_all-IsClean i k r place ((j, r', a, d) ∷ rs) ss w p c =
      repair_all-IsClean i k r place rs ss (repair j r' a d w) (repair-owner j r' a d w ∙ p)
        (repair-shrinks (Covers r i) i k j r' a d w (Covers-up r i) c)

  report-Covers : (count i : ℕ) (n : Node M) → i < count → Covers (report count n) i n
  unfolding report
  report-Covers count i n below =
      let lt : ltb i count ≡ true = ground arith in rw lt (empty (n.held i), λ h. h)
    where
      empty : (ms : List M) → not (is_empty ms) ≡ false → ms ≡ []
      empty [] h = refl
      empty (m ∷ ms) h = ground arith

-- Whatever the reports of a pass say, however old they are, and however its calls go: the node that the
-- placement names for a slot has the messages of the slot that it had before.
pub reconcile_spares :
    {M : Type 0} (rs : List (String × Report × Call × Call)) (w : World M) (i : ℕ)
    → ((reconcile rs w).nodes ((reconcile rs w).owner i)).held i ≡ (w.nodes (w.owner i)).held i
unfolding reconcile
reconcile_spares {M} rs w i =
    if_cases {A = World M} (λ u. (u.nodes (u.owner i)).held i ≡ (w.nodes (w.owner i)).held i)
      w.migrating (λ e. refl) (λ e. repair_all-held i ((w.nodes (w.owner i)).held i) rs w refl)

-- A pass over a queue that is not in migration, with a node's report among its reports, the report true
-- of the node when the pass is at its repairs and the node's two calls carried out, leaves nothing
-- to repair on the node: below the slot count, no slot that it owns is out of service, and it holds no
-- message of a slot that another node owns. What the pass does for other nodes, and how those calls
-- go, is arbitrary.
pub reconcile_repairs :
    {M : Type 0} (count : ℕ) (k : String) (rs ss : List (String × Report × Call × Call))
    (w : World M) (i : ℕ)
    → w.migrating ≡ false
    → i < count
    → IsClean w.owner k i
        ((reconcile (rs ++ (k, report count (w.nodes k), done, done) ∷ ss) w).nodes k)
unfolding reconcile
reconcile_repairs {M} count k rs ss w i idle below =
    let r = report count (w.nodes k) in
    if_cases {A = World M} (λ u. IsClean w.owner k i (u.nodes k)) w.migrating
      (λ e. absurd (true_not_false (sym e ∙ idle)))
      (λ e. repair_all-IsClean i k r w.owner rs ss w refl (report-Covers count i (w.nodes k) below))
  where
    true_not_false : true ≡ false → ⊥
    true_not_false h = cc
