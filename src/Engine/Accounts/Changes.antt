-- ===== src/Engine/Accounts/Changes.antt =====
-- A slot with one field or one group replaced: its structure, and what it does to the sums.
use ryuk_dpq.Base.{
  ℕ, ◌+◌, ◌≡◌, ◌≢◌, refl, ap, Bool, true, false, some, List, [], ◌⊎◌, inl, inr, String, arith, ◌==◌,
  Bool-cases, Option-cases, total, str_eq, eq_iff,
}
use ryuk_dpq.Base.Dict.{lookup, delete, lookup-delete, delete-IsKeyed, total-delete}
use ryuk_dpq.Engine.Deque.{Deque, empty, all}
use ryuk_dpq.Engine.Deque.Laws.{IsValid, empty-all}
use ryuk_dpq.Engine.Message.{Message, message_zero}
use ryuk_dpq.Engine.State.{Slot, Lease, SlotStats}
use ryuk_dpq.Engine.Heaps.{DelayEntry}
use ryuk_dpq.Engine.Bands.{set_group, drop_group_if_idle}
use ryuk_dpq.Engine.Accounts.{group_total, ready_total, IsNamed, IsBelow, IsListed, IsWellFormed}
use ryuk_dpq.Engine.Accounts.Groups.{
  total-update_listed, total-update_unlisted, update-IsNamed, All-delete,
}

-- The counters and the delayed heap are not part of the structure.
pub stats-IsWellFormed :
    (s : Slot) (t : SlotStats) → IsWellFormed s → IsWellFormed (record s { st = t })
stats-IsWellFormed s t v = record {
  valid = v.valid;
  keyed = v.keyed;
  named = v.named;
  below = v.below;
  listed = v.listed;
  leases_keyed = v.leases_keyed;
  locks = v.locks;
  lists = v.lists;
  apart = v.apart;
  ids = v.ids;
}

pub delayed-IsWellFormed :
    (s : Slot) (ds : List DelayEntry) → IsWellFormed s → IsWellFormed (record s { delayed = ds })
delayed-IsWellFormed s ds v = record {
  valid = v.valid;
  keyed = v.keyed;
  named = v.named;
  below = v.below;
  listed = v.listed;
  leases_keyed = v.leases_keyed;
  locks = v.locks;
  lists = v.lists;
  apart = v.apart;
  ids = v.ids;
}

-- No lease is on the group.
abbrev pub IsFree : Slot → ℕ → Type 0
IsFree s a = (k : String) (l : Lease) → lookup k s.inflight ≡ some l → l.g ≢ a

abbrev pub with_msgs : Slot → ℕ → Deque Message → Slot
with_msgs s a d = set_group s a (record (s.store a) { msgs = d })

abbrev pub with_lock : Slot → ℕ → Bool → Slot
with_lock s a b = set_group s a (record (s.store a) { locked = b })

module _ (s : Slot) (v : IsWellFormed s) (a : ℕ) where
  -- A listed group gets other messages.
  pub with_msgs-IsWellFormed :
      (d : Deque Message) → IsListed s a → IsValid d → IsWellFormed (with_msgs s a d)
  unfolding set_group
  with_msgs-IsWellFormed d here ok = record {
    valid = λ b. ground (arith, v.valid b);
    keyed = v.keyed;
    named = update-IsNamed s.store a (record (s.store a) { msgs = d }) s.groups refl v.named;
    below = v.below;
    listed = λ b. ground (arith, v.listed b);
    leases_keyed = v.leases_keyed;
    locks = λ k l h. ground (arith, v.locks k l h);
    lists = λ k l h. ground (arith, v.lists k l h);
    apart = v.apart;
    ids = v.ids;
  }

  pub with_msgs-ready :
      (w : Message → ℕ) (d : Deque Message)
      → IsListed s a
      → ready_total w (with_msgs s a d) + total w (all (s.store a).msgs)
        ≡ ready_total w s + total w (all d)
  unfolding set_group ready_total
  with_msgs-ready w d here =
      total-update_listed w s.store a (record (s.store a) { msgs = d }) s.groups v.keyed v.named
        here

  -- A group is locked, or is unlocked when no lease is on it.
  pub with_lock-IsWellFormed : (b : Bool) → (b ≡ true) ⊎ IsFree s a → IsWellFormed (with_lock s a b)
  unfolding set_group
  with_lock-IsWellFormed b may = record {
    valid = λ c. ground (arith, v.valid c);
    keyed = v.keyed;
    named = update-IsNamed s.store a (record (s.store a) { locked = b }) s.groups refl v.named;
    below = v.below;
    listed = λ c. ground (arith, v.listed c);
    leases_keyed = v.leases_keyed;
    locks = λ k l h. elim may [
      | inl e ↦ ground (arith, v.locks k l h)
      | inr free ↦ ground (arith, v.locks k l h, free k l h)
    ];
    lists = λ k l h. ground (arith, v.lists k l h);
    apart = v.apart;
    ids = v.ids;
  }

  pub with_lock-ready :
      (w : Message → ℕ) (b : Bool) → ready_total w (with_lock s a b) ≡ ready_total w s
  unfolding set_group ready_total
  with_lock-ready w b = elim (v.listed a) [
    | inl none_here ↦ elim (Option-cases (lookup (s.store a).id s.groups)) [
      | inl e ↦
          total-update_unlisted w s.store a (record (s.store a) { locked = b }) s.groups v.keyed
            v.named (λ p. cc)
      | inr (c, e) ↦ elim (Bool-cases (a == c)) [
        | inl same ↦
            let here : IsListed s a = ground arith in
            omega (
              arith,
              total-update_listed w s.store a (record (s.store a) { locked = b }) s.groups v.keyed
                  v.named here,
            )
        | inr other ↦
            total-update_unlisted w s.store a (record (s.store a) { locked = b }) s.groups v.keyed
              v.named (λ p. ground arith)
      ]
    ]
    | inr here ↦ omega (
      arith,
      total-update_listed w s.store a (record (s.store a) { locked = b }) s.groups v.keyed v.named
          here,
    )
  ]

module _ (s : Slot) (v : IsWellFormed s) (a : ℕ) (here : IsListed s a) where
  -- An idle group leaves the map: it holds nothing, and no lease is on it.
  pub idle-listed :
      (b : ℕ)
      → all (s.store a).msgs ≡ []
      → (all (s.store b).msgs ≡ [])
        ⊎ (lookup (s.store b).id (delete (s.store a).id s.groups) ≡ some b)
  idle-listed b none_here = elim (v.listed b) [
    | inl e ↦ inl e
    | inr there ↦ elim (Bool-cases (str_eq (s.store a).id (s.store b).id)) [
      | inl same ↦
          let e : (s.store a).id ≡ (s.store b).id = (eq_iff _ _).0 same in
          inl (ground (arith, e, here, there))
      | inr other ↦ inr (rw (lookup-delete (s.store a).id (s.store b).id s.groups, other) there)
    ]
  ]

  pub idle-lists :
      (l : Lease)
      → (s.store a).locked ≡ false
      → (s.store l.g).locked ≡ true
      → IsListed s l.g
      → lookup (s.store l.g).id (delete (s.store a).id s.groups) ≡ some l.g
  idle-lists l open_here shut there = elim (Bool-cases (str_eq (s.store a).id (s.store l.g).id)) [
    | inl same ↦
        let e : (s.store a).id ≡ (s.store l.g).id = (eq_iff _ _).0 same in
        absurd (ground (arith, e, here, there))
    | inr other ↦ rw (lookup-delete (s.store a).id (s.store l.g).id s.groups, other) there
  ]

  pub dropped-IsWellFormed :
      (s.store a).locked ≡ false
      → all (s.store a).msgs ≡ []
      → IsWellFormed (record s { groups = delete (s.store a).id s.groups })
  dropped-IsWellFormed open_here none_here = record {
    valid = v.valid;
    keyed = delete-IsKeyed (s.store a).id s.groups v.keyed;
    named = All-delete (IsNamed s.store) (s.store a).id s.groups v.named;
    below = All-delete (IsBelow s.fresh) (s.store a).id s.groups v.below;
    listed = λ b. idle-listed b none_here;
    leases_keyed = v.leases_keyed;
    locks = v.locks;
    lists = λ k l h. idle-lists l open_here (v.locks k l h) (v.lists k l h);
    apart = v.apart;
    ids = v.ids;
  }

  pub dropped-ready :
      (w : Message → ℕ)
      → all (s.store a).msgs ≡ []
      → ready_total w (record s { groups = delete (s.store a).id s.groups }) ≡ ready_total w s
  unfolding ready_total
  dropped-ready w none_here = omega (
    arith,
    total-delete (group_total w s.store) (s.store a).id a s.groups v.keyed here,
    ap (total w) none_here,
  )

  -- The test of `dropGroupIfIdle` covers both premises.
  pub drop_idle-IsWellFormed : IsWellFormed (drop_group_if_idle s a)
  unfolding drop_group_if_idle
  drop_idle-IsWellFormed = elim (Bool-cases (s.store a).locked) [
    | inl l ↦ rw l v
    | inr l ↦ elim (Bool-cases (empty (s.store a).msgs)) [
      | inr m ↦ rw (l, m) v
      | inl m ↦ elim (Bool-cases (s.store a).in_band) [
        | inl b ↦ rw (l, m, b) v
        | inr b ↦ rw (l, m, b) (dropped-IsWellFormed l ((empty-all _).0 m))
      ]
    ]
  ]

  pub drop_idle-ready : (w : Message → ℕ) → ready_total w (drop_group_if_idle s a) ≡ ready_total w s
  unfolding drop_group_if_idle
  drop_idle-ready w = elim (Bool-cases (s.store a).locked) [
    | inl l ↦ rw l
    | inr l ↦ elim (Bool-cases (empty (s.store a).msgs)) [
      | inr m ↦ rw (l, m)
      | inl m ↦ elim (Bool-cases (s.store a).in_band) [
        | inl b ↦ rw (l, m, b)
        | inr b ↦ rw (l, m, b) (dropped-ready w ((empty-all _).0 m))
      ]
    ]
  ]
