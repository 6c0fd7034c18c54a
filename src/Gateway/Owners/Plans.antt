-- ===== src/Gateway/Owners/Plans.antt =====
-- The routes of a rebalance, and the moves along them.
use ryuk_dpq.Base.{
  ℕ, ◌<◌, ◌≡◌, refl, ap, ◌∙◌, String, Bool, true, false, ◌&&◌, Option, none, some, inl, inr,
  Bool-cases, Option-cases, str_eq, eq_iff,
}
use ryuk_dpq.Placement.{Member, owner_for, candidates_for}
use ryuk_dpq.Gateway.Moves.{World, Outcomes, move_route}
use ryuk_dpq.Gateway.Moves.Holding.{Keeps}
use ryuk_dpq.Gateway.Moves.Safety.{move_route-Keeps}
use ryuk_dpq.Gateway.Owners.{Placed, Cluster, plan_slot, route_slots}

-- A slot that is planned to move goes from its owner, which is up, to another member.
pub plan_slot-apart :
    (c : Cluster) (p : Placed) (slot : ℕ) (from to : String)
    → plan_slot c p slot ≡ some (from, to)
    → (p.owner slot ≡ from) × (str_eq to from ≡ false)
unfolding plan_slot
plan_slot-apart c p slot from to h = elim (Bool-cases (str_eq (p.owner slot) "")) [
  | inl y ↦ absurd (nothing (rw (plan_slot, y) at h))
  | inr n ↦ elim (Option-cases wanted) [
    | inl e ↦ absurd (nothing (rw (plan_slot, n, e) at h))
    | inr (want, e) ↦ elim (Bool-cases (str_eq want.id (p.owner slot))) [
      | inl y ↦ absurd (nothing (rw (plan_slot, n, e, y) at h))
      | inr apart ↦ elim (Option-cases (c.up (p.owner slot))) [
        | inl d ↦ absurd (nothing (rw (plan_slot, n, e, apart, d) at h))
        | inr (m, d) ↦ ends (p.owner slot) want.id (rw (plan_slot, n, e, apart, d) at h) apart
      ]
    ]
  ]
]
  where
    one : String → String → Option (String × String)
    one a b = some (a, b)

    wanted : Option Member
    wanted =
        owner_for (c.slot_key slot) (candidates_for c.less c.queue_key c.members p.placement_width)

    nothing : none ≡ one from to → ⊥
    nothing h = cc

    ends :
        (a b : String)
        → one a b ≡ one from to
        → str_eq b a ≡ false
        → (a ≡ from) × (str_eq to from ≡ false)
    ends a b h e =
        let a_from : a ≡ from = ap (λ o. elim o [ none ↦ "" | some x ↦ x.0 ]) h in
        let b_to : b ≡ to = ap (λ o. elim o [ none ↦ "" | some x ↦ x.1 ]) h in
        (a_from, rw (a_from, b_to) at e)

-- A slot that is on a route has the route's first node as its owner, and the route's nodes differ.
pub route_slots-apart :
    (c : Cluster) (p : Placed) (from to : String) (slot : ℕ)
    → route_slots c p from to slot ≡ true
    → (p.owner slot ≡ from) × (str_eq to from ≡ false)
unfolding route_slots
route_slots-apart c p from to slot h = elim (Option-cases (plan_slot c p slot)) [
  | inl e ↦ let gone : false ≡ true = rw (route_slots, e) at h in absurd cc
  | inr (r, e) ↦
      let (f, t) = both (str_eq r.0 from) (str_eq r.1 to) (rw (route_slots, e) at h) in
      let f_from : r.0 ≡ from = (eq_iff r.0 from).0 f in
      let t_to : r.1 ≡ to = (eq_iff r.1 to).0 t in
      plan_slot-apart c p slot from to
        (e ∙ ap (λ x. some (x, r.1)) f_from ∙ ap (λ x. some (from, x)) t_to)
]
  where
    both : (a b : Bool) → a && b ≡ true → (a ≡ true) × (b ≡ true)
    both true b h = (refl, h)
    both false b h = absurd cc

-- One route of a rebalance, planned from the placement that is there, whatever happens to each of its
-- calls, with a move that the other node has not applied yet: the node that the placement then names for
-- a slot of the route has all the messages of the slot, each as often as the old node had it, and maybe
-- others.
pub planned_route-Keeps :
    {M : Type 0} (c : Cluster) (p : Placed) (from to move : String) (o : Outcomes) (count : ℕ)
    (w : World M) (i : ℕ)
    → w.owner ≡ p.owner
    → route_slots c p from to i ≡ true
    → i < count
    → (w.nodes to).applied move ≡ false
    → Keeps
        (move_route from to (route_slots c p from to) move o count w).1
        i
        ((w.nodes from).held i)
planned_route-Keeps c p from to move o count w i placed on_route below fresh =
    let (owner, apart) = route_slots-apart c p from to i on_route in
    move_route-Keeps from to (route_slots c p from to) move o count w i apart on_route below
      (ap (λ f. f i) placed ∙ owner) fresh
