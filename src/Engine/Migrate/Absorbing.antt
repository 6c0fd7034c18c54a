-- ===== src/Engine/Migrate/Absorbing.antt =====
-- What a slot holds after it absorbs messages.
use ryuk_dpq.Base.{
  ℕ, ◌+◌, ◌≡◌, refl, sym, ap, ◌∙◌, String, false, not, List, [], ◌∷◌, arith, inl, inr, Bool-cases,
  total, total-append,
}
use ryuk_dpq.Base.Int.{pos}
use ryuk_dpq.Engine.Deque.{prepend, all}
use ryuk_dpq.Engine.Deque.Laws.{prepend-IsValid, all-prepend}
use ryuk_dpq.Engine.Message.{Message, add64}
use ryuk_dpq.Engine.State.{Slot, absent, delayed, move}
use ryuk_dpq.Engine.Bands.{set_group, group_for}
use ryuk_dpq.Engine.Deliver.{hold}
use ryuk_dpq.Engine.Handoff.{sort_by_seq}
use ryuk_dpq.Engine.Accounts.{
  IsStable, ready_total, flight_total, delayed_total, held, one, in_bucket, size, IsListed,
  IsWellFormed, IsGauged,
}
use ryuk_dpq.Engine.Accounts.Same.{
  Same, Same-held, Same-IsGauged, Same-IsWellFormed, set_group-Same, push_group-Same,
  refresh_hint-Same,
}
use ryuk_dpq.Engine.Accounts.Changes.{
  with_msgs, with_msgs-IsWellFormed, with_msgs-ready, stats-IsWellFormed,
}
use ryuk_dpq.Engine.Accounts.Gauges.{Moved, Moved-held, Moved-IsGauged, SameGauges-refl}
use ryuk_dpq.Engine.Accounts.Operations.{hold-delay, hold-IsWellFormed}
use ryuk_dpq.Engine.Accounts.Steps.{Grouped, group_for-Grouped}
use ryuk_dpq.Engine.Migrate.Coming.{Shows, come_all-Shows, move_all-come_all}
use ryuk_dpq.Engine.Migrate.Splitting.{group_weight, split_due-total}
use ryuk_dpq.Engine.Migrate.Sorting.{total-sort_by_seq}
use ryuk_dpq.Engine.Migrate.{
  move_all, absorb_group, absorb_groups, hold_all, split_due, absorb_slot,
}

-- The slot stays well formed with correct gauges, and holds `gain` more.
pub record Adds (s t : Slot) (gain : (Message → ℕ) → ℕ) : Type 0 where
  pub well : IsWellFormed t
  pub gauged : IsGauged t
  pub number : t.id ≡ s.id
  pub more : (w : Message → ℕ) → IsStable w → held w t ≡ held w s + gain w

-- Messages go in front of a listed group, and the gauges follow.
module _ (s : Slot) (v : IsWellFormed s) (g : IsGauged s) (a : ℕ) (here : IsListed s a)
    (list : List Message) where
  abbrev fronted : Slot
  fronted = with_msgs s a (prepend (s.store a).msgs list)

  fronted_well : IsWellFormed fronted
  fronted_well =
      with_msgs-IsWellFormed s v a _ here (prepend-IsValid (s.store a).msgs list (v.valid a))

  fronted_ready : (w : Message → ℕ) → ready_total w fronted ≡ ready_total w s + total w list
  fronted_ready w = omega (
    arith,
    with_msgs-ready s v a w (prepend (s.store a).msgs list) here,
    ap (total w) (all-prepend (s.store a).msgs list),
    total-append w list (all (s.store a).msgs),
  )

  moved_in-Adds : Adds s (move_all fronted list) (λ w. total w list)
  unfolding ready_total flight_total delayed_total set_group
  moved_in-Adds =
      let shown : Shows s.st (λ k. ready_total (in_bucket k) s) (flight_total one s)
          (delayed_total one s) (held size s) =
        record { ready = g.ready; inflight = g.inflight; delayed = g.delayed; bytes = g.bytes } in
      let after =
        come_all-Shows list s.st _ (λ k. ready_total (in_bucket k) fronted) _ _ _
          (held size fronted) shown (λ k. fronted_ready (in_bucket k))
          (omega (arith, fronted_ready size)) in
      rw (move_all-come_all list fronted) record {
        well = stats-IsWellFormed fronted _ fronted_well;
        number = refl;
        gauged = record {
          ready = after.ready;
          inflight = after.inflight;
          delayed = after.delayed;
          bytes = after.bytes;
        };
        more = λ w i. omega (arith, fronted_ready w);
      }

Adds-Same : {s t u : Slot} {gain : (Message → ℕ) → ℕ} → Adds s t gain → Same t u → Adds s u gain
Adds-Same v e = record {
  well = Same-IsWellFormed e v.well;
  gauged = Same-IsGauged e v.gauged;
  number = e.number ∙ v.number;
  more = λ w i. Same-held e w ∙ v.more w i;
}

-- What adds nothing first, and then something.
Adds-after :
    {s t u : Slot} {gain : (Message → ℕ) → ℕ}
    → ((w : Message → ℕ) → held w t ≡ held w s)
    → t.id ≡ s.id
    → Adds t u gain
    → Adds s u gain
Adds-after h i v = record {
  well = v.well;
  gauged = v.gauged;
  number = v.number ∙ i;
  more = λ w i. omega (arith, v.more w i, h w);
}

held-group_for :
    (s : Slot) (gid : String) (r : ℕ × Slot) (v : Grouped s gid r) (w : Message → ℕ)
    → held w r.1 ≡ held w s
unfolding flight_total delayed_total ready_total
held-group_for s gid r v w = rw (v.rest.inflight, v.rest.delayed) (omega (arith, v.ready w))

group_for-IsGauged :
    (s : Slot) (gid : String) (r : ℕ × Slot) → Grouped s gid r → IsGauged s → IsGauged r.1
unfolding flight_total delayed_total
group_for-IsGauged s gid r v g = record {
  ready = λ b. ap (λ x. x.ready b) v.rest.st ∙ g.ready b ∙ ap pos (sym (v.ready (in_bucket b)));
  inflight = rw (v.rest.st, v.rest.inflight) g.inflight;
  delayed = rw (v.rest.st, v.rest.delayed) g.delayed;
  bytes = ap (λ x. x.bytes) v.rest.st ∙ g.bytes ∙ ap pos (sym (held-group_for s gid r v size));
}

group_for-id : (s : Slot) (gid : String) → (group_for s gid).1.id ≡ s.id
unfolding group_for
group_for-id s gid = ground arith

absorb_group-Adds :
    (s : Slot) (gid : String) (list : List Message)
    → IsWellFormed s
    → IsGauged s
    → Adds s (absorb_group s gid list) (λ w. total w list)
unfolding absorb_group
absorb_group-Adds s gid list v g =
    let r = group_for s gid in
    let q = group_for-Grouped s gid v in
    let inside = moved_in-Adds r.1 q.well (group_for-IsGauged s gid r q g) r.0 q.here list in
    let here = Adds-after {s = s} (held-group_for s gid r q) (group_for-id s gid) inside in
    let t = move_all (with_msgs r.1 r.0 (prepend (r.1.store r.0).msgs list)) list in
    let anew =
      set_group-Same t r.0
        (record (t.store r.0) { version = add64 (t.store r.0).version 1; in_band = false }) refl
        refl refl in
    let listed = Adds-Same here anew in
    elim (Bool-cases (not (t.store r.0).locked)) [
      | inl e ↦ rw (absorb_group, e) (Adds-Same listed (push_group-Same _ r.0))
      | inr e ↦ rw (absorb_group, e) listed
    ]

absorb_groups-Adds :
    (gs : List (String × List Message)) (s : Slot)
    → IsWellFormed s
    → IsGauged s
    → Adds s (absorb_groups s gs) (λ w. total (group_weight w) gs)
unfolding absorb_groups
absorb_groups-Adds [] s v g = record {
  well = v;
  gauged = g;
  number = refl;
  more = λ w i. omega arith;
}
absorb_groups-Adds ((gid, list) ∷ gs) s v g =
    let one_group = absorb_group-Adds s gid list v g in
    let others = absorb_groups-Adds gs (absorb_group s gid list) one_group.well one_group.gauged in
    record {
      well = others.well;
      gauged = others.gauged;
      number = others.number ∙ one_group.number;
      more = λ w i. omega (arith, one_group.more w i, others.more w i);
    }

hold-Adds :
    (s : Slot) (m : Message) → IsWellFormed s → IsGauged s → Adds s (hold s m absent) (λ w. w m)
unfolding hold move ready_total flight_total delayed_total
hold-Adds s m v g =
    let moved : Moved s (hold s m absent) m absent delayed = record {
      ready = λ w i. omega arith;
      leases = λ w i. omega arith;
      delay = λ w i. omega (arith, hold-delay s m absent w);
      base = s.st;
      before = SameGauges-refl s.st;
      gauges = SameGauges-refl _;
    } in
    record {
      well = hold-IsWellFormed s m absent v;
      gauged = Moved-IsGauged moved tt g;
      number = refl;
      more = λ w i. omega (arith, Moved-held moved w i);
    }

hold_all-Adds :
    (ms : List Message) (s : Slot)
    → IsWellFormed s
    → IsGauged s
    → Adds s (hold_all s ms) (λ w. total w ms)
unfolding hold_all
hold_all-Adds [] s v g = record { well = v; gauged = g; number = refl; more = λ w i. omega arith }
hold_all-Adds (m ∷ ms) s v g =
    let first = hold-Adds s m v g in
    let others = hold_all-Adds ms (hold s m absent) first.well first.gauged in
    record {
      well = others.well;
      gauged = others.gauged;
      number = others.number ∙ first.number;
      more = λ w i. omega (arith, first.more w i, others.more w i);
    }

-- A slot that absorbs messages keeps its well-formedness and gauges and holds them all.
pub absorb_slot-Adds :
    (s : Slot) (msgs : List Message) (now : ℕ)
    → IsWellFormed s
    → IsGauged s
    → Adds s (absorb_slot s msgs now) (λ w. total w msgs)
unfolding absorb_slot
absorb_slot-Adds s msgs now v g =
    let r = split_due (sort_by_seq msgs) now [] in
    let ready = absorb_groups-Adds r.0 s v g in
    let later = hold_all-Adds r.1 (absorb_groups s r.0) ready.well ready.gauged in
    let both : Adds s (hold_all (absorb_groups s r.0) r.1) (λ w. total w msgs) = record {
      well = later.well;
      gauged = later.gauged;
      number = later.number ∙ ready.number;
      more = λ w i. omega (
        arith,
        ready.more w i,
        later.more w i,
        split_due-total w (sort_by_seq msgs) now [],
        total-sort_by_seq w msgs,
      );
    } in
    Adds-Same both (refresh_hint-Same _)
