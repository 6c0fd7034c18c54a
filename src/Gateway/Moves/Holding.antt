-- ===== src/Gateway/Moves/Holding.antt =====
-- What a node has of a slot, and how single calls leave it.
use ryuk_dpq.Base.{
  ℕ, zero, suc, ◌<◌, ◌≡◌, refl, String, Bool, true, false, not, ◌&&◌, ◌||◌, ◌==◌, List, ◌+◌, total,
  inl, inr, arith, Bool-cases, str_eq, eq_iff,
}
use ryuk_dpq.Gateway.Moves.{
  Call, done, failed, unsure, heard, Slots, Node, World, call, at_node, all_below,
}

-- The node has these messages of the slot, and maybe others: by any measure it has as much as both.
abbrev pub Has : {M : Type 0} → Node M → ℕ → List M → Type 0
Has {M} n i ms = (rest : List M) × ((w : M → ℕ) → total w (n.held i) ≡ total w ms + total w rest)

-- The owner of the slot has them.
abbrev pub Keeps : {M : Type 0} → World M → ℕ → List M → Type 0
Keeps w i ms = Has (w.nodes (w.owner i)) i ms

pub call-preserves :
    {M : Type 0} (P : World M → Type 0) (c : Call) (f : World M → World M) (w : World M)
    → P w
    → P (f w)
    → P (call c f w)
call-preserves P done f w p q = q
call-preserves P failed f w p q = p
call-preserves P unsure f w p q = q

pub at_node-other :
    {M : Type 0} (j k : String) (f : Node M → Node M) (w : World M)
    → str_eq k j ≡ false
    → (at_node j f w).nodes k ≡ w.nodes k
at_node-other j k f w e = rw e refl

pub at_node-same :
    {M : Type 0} (k : String) (f : Node M → Node M) (w : World M)
    → (at_node k f w).nodes k ≡ f (w.nodes k)
at_node-same k f w = let e : str_eq k k ≡ true = (eq_iff k k).1 refl in rw e refl

pub apart_sym : (a b : String) → str_eq b a ≡ false → str_eq a b ≡ false
apart_sym a b e = grind (arith, eq_iff a b, eq_iff b a)

pub all_below-at : (i n : ℕ) (p : Slots) → all_below n p ≡ true → i < n → p i ≡ true
unfolding all_below
all_below-at i zero p h lt = absurd (omega arith)
all_below-at i (suc n) p h lt = elim (Bool-cases (i == n)) [
  | inl a ↦ let e : i ≡ n = ground arith in rw e (both (p n) (all_below n p) h).0
  | inr a ↦ all_below-at i n p (both (p n) (all_below n p) h).1 (ground arith)
]
  where
    both : (a b : Bool) → a && b ≡ true → (a ≡ true) × (b ≡ true)
    both true b h = (refl, h)
    both false b h = absurd cc

pub implied : (a b : Bool) → a ≡ true → not a || b ≡ true → b ≡ true
implied true b e h = h
implied false b e h = absurd cc

pub and_false : (a : Bool) → a && false ≡ false
and_false true = refl
and_false false = refl

pub heard-done : (c : Call) → heard c ≡ true → c ≡ done
heard-done done h = refl
heard-done failed h = absurd cc
heard-done unsure h = absurd cc
