-- ===== src/Gateway/Moves/Settling.antt =====
-- A move and the pass of the reconciler that comes after it.
use ryuk_dpq.Base.{ℕ, ◌<◌, ◌≡◌, ◌∙◌, ap, total, String, true, false, [], ◌∷◌, str_eq}
use ryuk_dpq.Gateway.Moves.{done, Slots, World, Outcomes, Report, report, migrate, reconcile}
use ryuk_dpq.Gateway.Moves.Safety.{migrate-Keeps}
use ryuk_dpq.Gateway.Moves.Holding.{Keeps}
use ryuk_dpq.Gateway.Moves.Repair.{IsClean, reconcile_spares, reconcile_repairs}

-- A pass that hears both nodes, and whose calls are carried out.
abbrev pub pass_over : {M : Type 0} → ℕ → String → String → World M → World M
pass_over count from to w =
    reconcile
      ((from, report count (w.nodes from), done, done)
        ∷ (to, report count (w.nodes to), done, done)
        ∷ [])
      w

-- A whole queue is moved, and whatever happened to each call of the move the queue's row says again
-- that it is active; then a pass hears both nodes and its calls are carried out. After it, for a slot
-- that belonged to the old node, the node that the placement names has all the messages of the slot,
-- each as often as the old node had it, and has it in service; a node of the two that is not named
-- has none of them, if the name is not empty.
pub migrate-reconcile-IsClean :
    {M : Type 0} (from to : String) (s : Slots) (move : String) (o : Outcomes) (count : ℕ)
    (w : World M) (i : ℕ)
    → str_eq to from ≡ false
    → s i ≡ true
    → i < count
    → w.owner i ≡ from
    → (w.nodes to).applied move ≡ false
    → (migrate from to s move o w).1.migrating ≡ false
    → let w1 = (migrate from to s move o w).1 in
      let w2 = pass_over count from to w1 in
      Keeps w2 i ((w.nodes from).held i)
      × IsClean w1.owner from i (w2.nodes from)
      × IsClean w1.owner to i (w2.nodes to)
migrate-reconcile-IsClean from to s move o count w i apart named below e fresh idle =
    let w1 = (migrate from to s move o w).1 in
    let a : String × Report × _ × _ = (from, report count (w1.nodes from), done, done) in
    let b : String × Report × _ × _ = (to, report count (w1.nodes to), done, done) in
    let (rest, kept) = migrate-Keeps from to s move o w i apart named e fresh in
    (
      (rest, λ u. ap (total u) (reconcile_spares (a ∷ b ∷ []) w1 i) ∙ kept u),
      reconcile_repairs count from [] (b ∷ []) w1 i idle below,
      reconcile_repairs count to (a ∷ []) [] w1 i idle below,
    )
