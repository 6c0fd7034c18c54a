-- ===== src/Engine/Accounts/Steps.antt =====
-- The group of a key is found, made or dropped: the structure is kept, and what it does to the sums.
pub mod Leases
use ryuk_dpq.Base.{
  ℕ, zero, suc, ◌+◌, ◌≤◌, ◌<◌, ◌≡◌, ◌≢◌, refl, sym, ◌∙◌, ap, subst, Bool, true, false, not, Option,
  none, some, List, [], ◌∷◌, ◌++◌, ◌⊎◌, inl, inr, String, arith, ◌==◌, ==_iff, if◌then◌else◌,
  Bool-cases, Option-cases, update, total, All, str_eq, eq_iff, ◌&&◌,
}
use ryuk_dpq.Base.Dict.{
  lookup, put, delete, IsKeyed, lookup-put, lookup-delete, put-IsKeyed, delete-IsKeyed, total-put,
  total-delete,
}
use ryuk_dpq.Engine.Deque.{Deque, empty, empty_deque, all}
use ryuk_dpq.Engine.Deque.Laws.{IsValid, empty-all, empty_deque-IsValid, all-empty_deque}
use ryuk_dpq.Engine.Message.{Message, message_zero}
use ryuk_dpq.Engine.State.{Slot, Group, Lease, SlotStats, new_group}
use ryuk_dpq.Engine.Heaps.{DelayEntry}
use ryuk_dpq.Engine.Bands.{set_group, drop_group_if_idle, group_for}
use ryuk_dpq.Engine.Accounts.{
  group_total, ready_total, flight_total, delayed_total, held, IsNamed, IsBelow, IsListed,
  IsWellFormed,
}
use ryuk_dpq.Engine.Accounts.Groups.{
  total-update_listed, total-update_unlisted, update-IsNamed, IsBelow-suc, lookup-below,
  lookup-named, All-delete, All-put,
}

-- What else an operation on the group map may not touch.
pub record KeepsRest (s t : Slot) : Type 0 where
  pub inflight : t.inflight ≡ s.inflight
  pub delayed : t.delayed ≡ s.delayed
  pub st : t.st ≡ s.st

pub drop_idle-KeepsRest : (s : Slot) (a : ℕ) → KeepsRest s (drop_group_if_idle s a)
unfolding drop_group_if_idle
drop_idle-KeepsRest s a = record {
  inflight = ground arith;
  delayed = ground arith;
  st = ground arith;
}

-- The group that a key is given: listed, under that key, in a slot that holds the same.
pub record Grouped (s : Slot) (gid : String) (r : ℕ × Slot) : Type 0 where
  pub well : IsWellFormed r.1
  pub here : IsListed r.1 r.0
  pub named : (r.1.store r.0).id ≡ gid
  pub ready : (w : Message → ℕ) → ready_total w r.1 ≡ ready_total w s
  pub rest : KeepsRest s r.1

abbrev pub with_group : Slot → String → Slot
with_group s gid = record s {
  groups = put gid s.fresh s.groups;
  store = update s.store s.fresh (new_group gid);
  fresh = s.fresh + 1;
}

module _ (s : Slot) (v : IsWellFormed s) (gid : String) (new_key : lookup gid s.groups ≡ none) where
  -- No listed group stands at the fresh address.
  below_fresh : (k : String) (b : ℕ) → lookup k s.groups ≡ some b → b < s.fresh
  below_fresh k b h = lookup-below s.fresh k b s.groups v.below h

  fresh-IsNamed :
      (gs : List (String × ℕ))
      → All (IsBelow s.fresh) gs
      → All (IsNamed s.store) gs
      → All (IsNamed (update s.store s.fresh (new_group gid))) gs
  fresh-IsNamed [] b n = tt
  fresh-IsNamed ((k, c) ∷ gs) b n = (ground (arith, b.0, n.0), fresh-IsNamed gs b.1 n.1)

  fresh-total :
      (w : Message → ℕ) (gs : List (String × ℕ))
      → All (IsBelow s.fresh) gs
      → total (group_total w (update s.store s.fresh (new_group gid))) gs
        ≡ total (group_total w s.store) gs
  fresh-total w [] b = refl
  fresh-total w ((k, c) ∷ gs) b = ground (arith, b.0, fresh-total w gs b.1)

  fresh-IsListed :
      (b : ℕ) → (all ((with_group s gid).store b).msgs ≡ []) ⊎ IsListed (with_group s gid) b
  unfolding new_group
  fresh-IsListed b = elim (Bool-cases (s.fresh == b)) [
    | inl same ↦ inl (rw same (all-empty_deque Message))
    | inr other ↦ elim (v.listed b) [
      | inl e ↦ inl (rw other e)
      | inr there ↦ inr (
          rw (other, lookup-put gid (s.store b).id s.fresh s.groups)
            (ground (arith, there, eq_iff gid (s.store b).id)))
    ]
  ]

  fresh-lease : (l : Lease) → IsListed s l.g → (s.fresh == l.g) ≡ false
  fresh-lease l there = ground (arith, below_fresh (s.store l.g).id l.g there)

  with_group-IsWellFormed : IsWellFormed (with_group s gid)
  unfolding new_group
  with_group-IsWellFormed = record {
    valid = λ b. ground (arith, v.valid b, empty_deque-IsValid Message);
    keyed = put-IsKeyed gid s.fresh s.groups v.keyed;
    named =
        All-put (IsNamed (update s.store s.fresh (new_group gid))) gid s.fresh s.groups
          (ground arith) (fresh-IsNamed s.groups v.below v.named);
    below =
        All-put (IsBelow (s.fresh + 1)) gid s.fresh s.groups (omega arith)
          (IsBelow-suc s.fresh s.groups v.below);
    listed = fresh-IsListed;
    leases_keyed = v.leases_keyed;
    locks = λ k l h. rw (fresh-lease l (v.lists k l h)) (v.locks k l h);
    lists = λ k l h.
        rw (fresh-lease l (v.lists k l h), lookup-put gid (s.store l.g).id s.fresh s.groups)
          (ground (arith, v.lists k l h, eq_iff gid (s.store l.g).id));
    apart = v.apart;
    ids = v.ids;
  }

  with_group-ready : (w : Message → ℕ) → ready_total w (with_group s gid) ≡ ready_total w s
  unfolding ready_total new_group
  with_group-ready w = omega (
    arith,
    total-put (group_total w (update s.store s.fresh (new_group gid))) gid s.fresh s.groups new_key,
    fresh-total w s.groups v.below,
    fresh_weight w,
  )
    where
      fresh_weight :
          (u : Message → ℕ)
          → group_total u (update s.store s.fresh (new_group gid)) (gid, s.fresh) ≡ 0
      fresh_weight u = ground (arith, ap (total u) (all-empty_deque Message))

  with_group-Grouped : Grouped s gid (s.fresh, with_group s gid)
  unfolding new_group
  with_group-Grouped = record {
    well = with_group-IsWellFormed;
    here = ground (arith, lookup-put gid gid s.fresh s.groups, eq_iff gid gid);
    named = ground arith;
    ready = with_group-ready;
    rest = record { inflight = refl; delayed = refl; st = refl };
  }

pub group_for-Grouped : (s : Slot) (gid : String) → IsWellFormed s → Grouped s gid (group_for s gid)
unfolding group_for
group_for-Grouped s gid v = elim (Option-cases (lookup gid s.groups)) [
  | inl e ↦ rw (e, group_for) (with_group-Grouped s v gid e)
  | inr (a, e) ↦
      let n = lookup-named s.store gid a s.groups v.named e in
      rw (e, group_for)
        (record {
          well = v;
          here = rw n e;
          named = n;
          ready = λ w. refl;
          rest = record { inflight = refl; delayed = refl; st = refl };
        })
]
