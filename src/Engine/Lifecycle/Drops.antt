-- ===== src/Engine/Lifecycle/Drops.antt =====
-- Expired messages leave the head of a group: in slot.take, and in the TTL sweep.
use ryuk_dpq.Base.{
  ℕ, zero, suc, ◌+◌, ◌<◌, ◌≡◌, refl, sym, ◌∙◌, ap, true, false, Option, none, some, List, [], ◌∷◌,
  ◌++◌, inl, inr, arith, Bool-cases, total, total-append, length, All, All-append,
}
use mathlib.Core.List.{append_assoc}
use ryuk_dpq.Engine.Deque.{Deque, all, pop_front}
use ryuk_dpq.Engine.Deque.Laws.{IsValid, pop_front_cases}
use ryuk_dpq.Engine.Message.{Message, message_zero, expired}
use ryuk_dpq.Engine.State.{Slot, ready, absent, move}
use ryuk_dpq.Engine.Bands.{set_group}
use ryuk_dpq.Engine.Deliver.{drop_expired, pop_live}
use ryuk_dpq.Engine.Accounts.{
  ready_total, flight_total, delayed_total, IsListed, IsWellFormed, IsGauged,
}
use ryuk_dpq.Engine.Accounts.Changes.{
  with_msgs, with_msgs-IsWellFormed, with_msgs-ready, stats-IsWellFormed,
}
use ryuk_dpq.Engine.Accounts.Gauges.{Moved, Moved-IsGauged, SameGauges-refl}

-- The messages `ds`, all expired, left the head of group `a`; nothing else changed but the gauges
-- and the count of the expired.
pub record Drops (s t : Slot) (a : ℕ) (ds : List Message) (now : ℕ) : Type 0 where
  pub well : IsWellFormed t
  pub here : IsListed t a
  pub gauged : IsGauged s → IsGauged t
  pub locked : (b : ℕ) → (t.store b).locked ≡ (s.store b).locked
  pub ids : (b : ℕ) → (t.store b).id ≡ (s.store b).id
  pub groups : t.groups ≡ s.groups
  pub inflight : t.inflight ≡ s.inflight
  pub delayed : t.delayed ≡ s.delayed
  pub epoch_seq : t.epoch_seq ≡ s.epoch_seq
  pub number : t.id ≡ s.id
  pub gone : All (λ m. expired m now ≡ true) ds
  pub msgs : all (s.store a).msgs ≡ ds ++ all (t.store a).msgs
  pub ready : (w : Message → ℕ) → ready_total w s ≡ ready_total w t + total w ds

pub Drops-nil : (s : Slot) (a now : ℕ) → IsWellFormed s → IsListed s a → Drops s s a [] now
Drops-nil s a now v here = record {
  well = v;
  here = here;
  gauged = λ g. g;
  locked = λ b. refl;
  ids = λ b. refl;
  groups = refl;
  inflight = refl;
  delayed = refl;
  epoch_seq = refl;
  number = refl;
  gone = tt;
  msgs = refl;
  ready = λ w. omega arith;
}

pub Drops-trans :
    {s t u : Slot} {a now : ℕ} {ds es : List Message}
    → Drops s t a ds now
    → Drops t u a es now
    → Drops s u a (ds ++ es) now
Drops-trans {ds = ds} {es = es} p q = record {
  well = q.well;
  here = q.here;
  gauged = λ g. q.gauged (p.gauged g);
  locked = λ b. q.locked b ∙ p.locked b;
  ids = λ b. q.ids b ∙ p.ids b;
  groups = q.groups ∙ p.groups;
  inflight = q.inflight ∙ p.inflight;
  delayed = q.delayed ∙ p.delayed;
  epoch_seq = q.epoch_seq ∙ p.epoch_seq;
  number = q.number ∙ p.number;
  gone = All-append _ ds es p.gone q.gone;
  msgs = p.msgs ∙ ap (◌++◌ ds) q.msgs ∙ sym (append_assoc ds es _);
  ready = λ w. omega (arith, p.ready w, q.ready w, total-append w ds es);
}

-- The head of a listed group is popped: it is counted as ready still.
module _ (s : Slot) (v : IsWellFormed s) (a : ℕ) (here : IsListed s a) (m : Message)
    (d : Deque Message) (head : all (s.store a).msgs ≡ m ∷ all d) (ok : IsValid d) where
  pub popped-ready : (w : Message → ℕ) → ready_total w (with_msgs s a d) + w m ≡ ready_total w s
  popped-ready w = omega (arith, with_msgs-ready s v a w d here, ap (total w) head)

  pub popped-IsListed : IsListed (with_msgs s a d) a
  unfolding set_group
  popped-IsListed = ground (arith, here)

  dropped : Slot
  dropped = drop_expired (with_msgs s a d) m

  dropped-Moved : Moved s (drop_expired (with_msgs s a d) m) m ready absent
  unfolding drop_expired move flight_total delayed_total ready_total set_group
  dropped-Moved = record {
    ready = λ w i. omega (arith, popped-ready w);
    leases = λ w i. omega arith;
    delay = λ w i. omega arith;
    base = s.st;
    before = SameGauges-refl s.st;
    gauges = record { ready = λ b. refl; inflight = refl; delayed = refl; bytes = refl };
  }

  pub drop_one :
      (now : ℕ) → expired m now ≡ true → Drops s (drop_expired (with_msgs s a d) m) a (m ∷ []) now
  unfolding drop_expired move set_group ready_total
  drop_one now old = record {
    well = stats-IsWellFormed _ _ (with_msgs-IsWellFormed s v a d here ok);
    here = popped-IsListed;
    gauged = Moved-IsGauged dropped-Moved tt;
    locked = λ b. ground arith;
    ids = λ b. ground arith;
    groups = refl;
    inflight = refl;
    delayed = refl;
    epoch_seq = refl;
    number = refl;
    gone = (old, tt);
    msgs = ground (arith, head);
    ready = λ w. omega (arith, popped-ready w);
  }

-- What pop_live finds: the expired messages are dropped, and then either the group is empty, or
-- its first message that has not expired is popped.
pub data Lives (s : Slot) (a now : ℕ) (o : Option Message) (t : Slot) : Type 0 where
  spent :
      (ds : List Message)
      → Drops s t a ds now
      → o ≡ none
      → all (t.store a).msgs ≡ []
      → Lives s a now o t
  alive :
      (ds : List Message) (u : Slot) (m : Message) (d : Deque Message)
      → Drops s u a ds now
      → o ≡ some m
      → t ≡ with_msgs u a d
      → all (u.store a).msgs ≡ m ∷ all d
      → IsValid d
      → expired m now ≡ false
      → Lives s a now o t

after_drop :
    {s u : Slot} {a now : ℕ} {es : List Message} (o : Option Message) (t : Slot)
    → Drops s u a es now
    → Lives u a now o t
    → Lives s a now o t
after_drop {es = es} o t p (spent ds q n e) = spent (es ++ ds) (Drops-trans p q) n e
after_drop {es = es} o t p (alive ds u m d q n e h ok l) =
    alive (es ++ ds) u m d (Drops-trans p q) n e h ok l

-- With fuel for its messages and one, the loop ends at the end of the group or at a live message.
pub pop_live-Lives :
    (f : ℕ) (s : Slot) (a now : ℕ)
    → IsWellFormed s
    → IsListed s a
    → length (all (s.store a).msgs) < f
    → Lives s a now (pop_live f s a now).0 (pop_live f s a now).1
unfolding pop_live
pop_live-Lives zero s a now v here h = absurd (omega arith)
pop_live-Lives (suc f) s a now v here h = elim (pop_front_cases (s.store a).msgs (v.valid a)) [
  | inl (none_here, e) ↦ rw (e, pop_live) (spent [] (Drops-nil s a now v here) refl none_here)
  | inr (m, e, head, ok) ↦
      let d = (pop_front (s.store a).msgs).1 in
      elim (Bool-cases (expired m now)) [
        | inr l ↦
            rw (e, pop_live, l) (alive [] s m d (Drops-nil s a now v here) refl refl head ok l)
        | inl old ↦
            let first = drop_one s v a here m d head ok now old in
            let t = drop_expired (with_msgs s a d) m in
            let fewer : length (all (t.store a).msgs) < f =
              omega (arith, ap length first.msgs, ap length head) in
            rw (e, pop_live, old)
              (after_drop _ _ first (pop_live-Lives f t a now first.well first.here fewer))
      ]
]
