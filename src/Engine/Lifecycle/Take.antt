-- ===== src/Engine/Lifecycle/Take.antt =====
-- slot.take: the first live message of a group is leased, and the group is locked.
use ryuk_dpq.Base.{
  ℕ, suc, ◌+◌, ◌<◌, ◌≡◌, refl, sym, ◌∙◌, ap, true, false, Option, none, some, List, [], ◌∷◌, ◌++◌,
  inl, inr, String, arith, total, length, All, eq_iff,
}
use ryuk_dpq.Base.Int.{ℤ}
use ryuk_dpq.Base.Dict.{lookup, lookup-put}
use ryuk_dpq.Engine.Deque.{Deque, all, len}
use ryuk_dpq.Engine.Deque.Laws.{IsValid, empty-all, len-all}
use ryuk_dpq.Engine.Message.{Message, message_zero, Receipt, expired, add32}
use ryuk_dpq.Engine.State.{Slot, ready, in_flight, move, refresh_hint}
use ryuk_dpq.Engine.Bands.{set_group, take_group, drop_group_if_idle}
use ryuk_dpq.Engine.Deliver.{lend, take_from, take}
use ryuk_dpq.Engine.Accounts.{
  IsStable, flight_total, delayed_total, held, lease_weight, delay_weight, has_id, IsListed,
  IsWellFormed, IsGauged, IsUnique,
}
use ryuk_dpq.Engine.Accounts.Same.{
  Same, Same-held, Same-IsGauged, Same-IsWellFormed, refresh_hint-Same,
}
use ryuk_dpq.Engine.Accounts.Search.{take_group-Takes}
use ryuk_dpq.Engine.Accounts.Changes.{with_msgs}
use ryuk_dpq.Engine.Accounts.Gauges.{Moved-held, Moved-IsGauged}
use ryuk_dpq.Engine.Accounts.Operations.{Gains, nothing, drop_idle-Gains, Gains-IsGauged}
use ryuk_dpq.Engine.Lifecycle.{Transition}
use ryuk_dpq.Engine.Lifecycle.Drops.{Drops, spent, alive, pop_live-Lives}
use ryuk_dpq.Engine.Lifecycle.Lend.{leased_slot, lend-Transition, Delivery}

-- The outcome of `take`, with the slot in order.
pub data Taken (s : Slot) (now : ℕ) (vis : ℤ) (r : Option (Message × Receipt) × Slot) : Type 0 where
  idle :
      (ds : List Message)
      → r.0 ≡ none
      → All (λ x. expired x now ≡ true) ds
      → ((w : Message → ℕ) → held w s ≡ held w r.1 + total w ds)
      → Taken s now vis r
  delivers :
      (out : Message) (q : Receipt)
      → r.0 ≡ some (out, q)
      → Delivery s now vis out q r.1
      → Taken s now vis r

pub record InOrder (s : Slot) : Type 0 where
  pub well : IsWellFormed s
  pub gauged : IsGauged s
  pub unique : IsUnique s

pub has_id-IsStable : (k : String) → IsStable (has_id k)
has_id-IsStable k m n t = refl

module _ {s u : Slot} {a now : ℕ} {ds : List Message} (p : Drops s u a ds now) where
  Drops-held : (w : Message → ℕ) → held w s ≡ held w u + total w ds
  unfolding flight_total delayed_total
  Drops-held w = omega (
    arith,
    p.ready w,
    ap (λ x. total (lease_weight w) x) p.inflight,
    ap (λ x. total (delay_weight w) x) p.delayed,
  )

  Drops-InOrder : InOrder s → InOrder u
  Drops-InOrder o = record {
    well = p.well;
    gauged = p.gauged o.gauged;
    unique = λ k. omega (arith, o.unique k, Drops-held (has_id k));
  }

Same-InOrder : {s t : Slot} → Same s t → InOrder s → InOrder t
Same-InOrder e o = record {
  well = Same-IsWellFormed e o.well;
  gauged = Same-IsGauged e o.gauged;
  unique = λ k. omega (arith, o.unique k, Same-held e (has_id k));
}

Transition-InOrder :
    {s t : Slot} {m : Message} → Transition s t m ready in_flight → InOrder s → InOrder t
Transition-InOrder p o = record {
  well = p.well;
  gauged = Moved-IsGauged p.moved tt o.gauged;
  unique = λ k. omega (arith, o.unique k, Moved-held p.moved (has_id k) (has_id-IsStable k));
}

Gains-held : {s t : Slot} → Gains s t nothing → (w : Message → ℕ) → held w t ≡ held w s
Gains-held g w = omega (arith, g.ready w, g.leases w, g.delay w)

Gains-InOrder : {s t : Slot} → Gains s t nothing → InOrder s → InOrder t
Gains-InOrder g o = record {
  well = g.well;
  gauged = Gains-IsGauged g o.gauged;
  unique = λ k. omega (arith, o.unique k, Gains-held g (has_id k));
}

module _ (s : Slot) (o : InOrder s) (a : ℕ) (here : IsListed s a)
    (open_here : (s.store a).locked ≡ false) (now : ℕ) (vis : ℤ) where
  lent :
      (ds : List Message) (u : Slot) (m : Message) (d : Deque Message)
      → Drops s u a ds now
      → all (u.store a).msgs ≡ m ∷ all d
      → IsValid d
      → expired m now ≡ false
      → let r = lend (with_msgs u a d) a m now vis in InOrder r.2 × Delivery s now vis r.0 r.1 r.2
  unfolding lend set_group move
  lent ds u m d p head ok l =
      let ou = Drops-InOrder p o in
      let open_u = p.locked a ∙ open_here in
      let step = lend-Transition u ou.well a p.here open_u ou.unique m d head ok now vis in
      let moved =
        move (leased_slot u ou.well a p.here open_u ou.unique m d head ok now vis)
          (record m { attempts = add32 m.attempts 1 }) ready in_flight in
      let same = refresh_hint-Same moved in
      let left : (moved.store a).msgs ≡ d = ground arith in
      let shut : (moved.store a).locked ≡ true = ground arith in
      (
        Transition-InOrder step ou,
        record {
          a = a;
          m = m;
          ds = ds;
          was_open = open_here;
          order = p.msgs ∙ ap (◌++◌ ds) (head ∙ ap (λ x. m ∷ all x) (sym (same.msgs a ∙ left)));
          gone = p.gone;
          live = l;
          copy = refl;
          leased =
              ap (lookup m.id) same.inflight
              ∙ lookup-put m.id m.id _ u.inflight
              ∙ ground (arith, eq_iff m.id m.id);
          receipt = ground (arith, p.number, p.epoch_seq);
          shut = same.locked a ∙ shut;
          kept = λ w i. omega (arith, Drops-held p w, Moved-held step.moved w i);
        },
      )

  gave_nothing :
      (ds : List Message) (t : Slot)
      → Drops s t a ds now
      → let r : Option (Message × Receipt) × Slot = (none, refresh_hint (drop_group_if_idle t a)) in
        InOrder r.1 × Taken s now vis r
  gave_nothing ds t p =
      let g = drop_idle-Gains t a p.well p.here in
      let e = refresh_hint-Same (drop_group_if_idle t a) in
      (
        Same-InOrder e (Gains-InOrder g (Drops-InOrder p o)),
        idle ds refl p.gone (λ w. omega (arith, Drops-held p w, Gains-held g w, Same-held e w)),
      )

  take_from-Taken : InOrder (take_from s a now vis).1 × Taken s now vis (take_from s a now vis)
  unfolding take_from
  take_from-Taken = elim (pop_live-Lives (suc (len (s.store a).msgs)) s a now o.well here enough) [
    | spent ds p n none_left ↦ rw (n, take_from) (gave_nothing ds _ p)
    | alive ds u m d p n e head ok l ↦
        let (t, q) = lent ds u m d p head ok l in rw (n, take_from, e) (t, delivers _ _ refl q)
  ]
    where
      enough : length (all (s.store a).msgs) < suc (len (s.store a).msgs)
      enough = omega (arith, len-all (s.store a).msgs)

Delivery-Same :
    {s u : Slot} {now : ℕ} {vis : ℤ} {out : Message} {r : Receipt} {t : Slot}
    → Same s u
    → Delivery u now vis out r t
    → Delivery s now vis out r t
Delivery-Same e d = record {
  a = d.a;
  m = d.m;
  ds = d.ds;
  was_open = sym (e.locked d.a) ∙ d.was_open;
  order = ap all (sym (e.msgs d.a)) ∙ d.order;
  gone = d.gone;
  live = d.live;
  copy = d.copy;
  leased = d.leased;
  receipt = ground (arith, d.receipt, e.number, e.epoch_seq);
  shut = d.shut;
  kept = λ w i. omega (arith, Same-held e w, d.kept w i);
}

Taken-Same :
    {s u : Slot} {now : ℕ} {vis : ℤ} (r : Option (Message × Receipt) × Slot)
    → Same s u
    → Taken u now vis r
    → Taken s now vis r
Taken-Same r e (idle ds n g h) = idle ds n g (λ w. omega (arith, Same-held e w, h w))
Taken-Same r e (delivers out q n d) = delivers out q n (Delivery-Same e d)

-- On a slot in order, `take` leaves it in order. Either it returns nothing, and the slot lost
-- expired messages only; or it delivers the first message of an unlocked group that has not
-- expired, leased under a fresh epoch with its group locked, and the slot lost the expired messages
-- before it only.
pub take_correct :
    (s : Slot) (p now : ℕ) (vis : ℤ)
    → InOrder s
    → InOrder (take s p now vis).1 × Taken s now vis (take s p now vis)
unfolding take
take_correct s p now vis o =
    let (e, found) = take_group-Takes s p in
    elim found [
      | inl n ↦
          let f = refresh_hint-Same (take_group s p).1 in
          rw (n, take)
            (
              Same-InOrder f (Same-InOrder e o),
              idle [] refl tt (λ w. omega (arith, Same-held e w, Same-held f w)),
            )
      | inr (a, n, open_here, filled) ↦ elim (o.well.listed a) [
        | inl none_here ↦ absurd (ground (arith, empty-all (s.store a).msgs))
        | inr here ↦
            let s1 = (take_group s p).1 in
            let here1 : lookup (s1.store a).id s1.groups ≡ some a = rw (e.ids a, e.groups) here in
            let (t, q) =
              take_from-Taken s1 (Same-InOrder e o) a here1 (e.locked a ∙ open_here) now vis in
            rw (n, take) (t, Taken-Same _ e q)
      ]
    ]
