-- ===== src/Engine/Accounts/Operations.antt =====
-- The shared parts of the operations: admitting a message, unlocking a group, holding a message.
use ryuk_dpq.Base.{
  ℕ, ◌+◌, ◌≡◌, refl, sym, ◌∙◌, ap, false, not, ◌&&◌, [], ◌∷◌, inl, inr, arith, Bool-cases, if_cases,
  total, total-append,
}
use ryuk_dpq.Base.Int.{pos}
use ryuk_dpq.Engine.Deque.{empty, push_back, push_front, all}
use ryuk_dpq.Engine.Deque.Laws.{
  push_back-IsValid, all-push_back, push_front-IsValid, all-push_front,
}
use ryuk_dpq.Engine.Message.{Message, message_zero, group}
use ryuk_dpq.Engine.Heaps.{total-push_delay}
use ryuk_dpq.Engine.State.{Slot, MsgState, move}
use ryuk_dpq.Engine.Bands.{set_group, append_message, admit, unlock, drop_group_if_idle, group_for}
use ryuk_dpq.Engine.Deliver.{hold}
use ryuk_dpq.Engine.Accounts.{
  ready_total, flight_total, delayed_total, delay_weight, IsListed, IsWellFormed, IsGauged, one,
  in_bucket, size,
}
use ryuk_dpq.Engine.Accounts.Same.{
  Same, Same-ready, Same-flight, Same-delayed, Same-IsWellFormed, push_group-Same,
}
use ryuk_dpq.Engine.Accounts.Steps.{drop_idle-KeepsRest, group_for-Grouped}
use ryuk_dpq.Engine.Accounts.Changes.{
  IsFree, with_msgs, with_lock, with_msgs-IsWellFormed, with_msgs-ready, with_lock-IsWellFormed,
  with_lock-ready, drop_idle-IsWellFormed, drop_idle-ready, delayed-IsWellFormed,
  stats-IsWellFormed,
}

-- The sums are the same, but for the ready messages, which gain `gain`.
pub record Gains (s t : Slot) (gain : (Message → ℕ) → ℕ) : Type 0 where
  pub well : IsWellFormed t
  pub ready : (w : Message → ℕ) → ready_total w t ≡ ready_total w s + gain w
  pub leases : (w : Message → ℕ) → flight_total w t ≡ flight_total w s
  pub inflight : t.inflight ≡ s.inflight
  pub delay : (w : Message → ℕ) → delayed_total w t ≡ delayed_total w s
  pub st : t.st ≡ s.st

abbrev pub nothing : (Message → ℕ) → ℕ
nothing w = 0

pub Gains-Same : {s t u : Slot} {g : (Message → ℕ) → ℕ} → Gains s t g → Same t u → Gains s u g
Gains-Same v e = record {
  well = Same-IsWellFormed e v.well;
  ready = λ w. Same-ready e w ∙ v.ready w;
  leases = λ w. Same-flight e w ∙ v.leases w;
  inflight = e.inflight ∙ v.inflight;
  delay = λ w. Same-delayed e w ∙ v.delay w;
  st = e.st ∙ v.st;
}

pub Same-Gains : {s t : Slot} → IsWellFormed s → Same s t → Gains s t nothing
Same-Gains v e = record {
  well = Same-IsWellFormed e v;
  ready = λ w. omega (arith, Same-ready e w);
  leases = Same-flight e;
  inflight = e.inflight;
  delay = Same-delayed e;
  st = e.st;
}

module _ (s : Slot) (v : IsWellFormed s) (a : ℕ) (here : IsListed s a) where
  appended : (m : Message) → Gains s (with_msgs s a (push_back (s.store a).msgs m)) (λ w. w m)
  unfolding flight_total delayed_total set_group
  appended m =
      let d = push_back (s.store a).msgs m in
      record {
        well = with_msgs-IsWellFormed s v a d here (push_back-IsValid _ m (v.valid a));
        ready = λ w. omega (
          arith,
          with_msgs-ready s v a w d here,
          ap (total w) (all-push_back (s.store a).msgs m (v.valid a)),
          total-append w (all (s.store a).msgs) (m ∷ []),
        );
        leases = λ w. refl;
        inflight = refl;
        delay = λ w. refl;
        st = refl;
      }

  pub prepended : (m : Message) → Gains s (with_msgs s a (push_front (s.store a).msgs m)) (λ w. w m)
  unfolding flight_total delayed_total set_group
  prepended m =
      let d = push_front (s.store a).msgs m in
      record {
        well = with_msgs-IsWellFormed s v a d here (push_front-IsValid _ m (v.valid a));
        ready = λ w. omega (
          arith,
          with_msgs-ready s v a w d here,
          ap (total w) (all-push_front (s.store a).msgs m (v.valid a)),
        );
        leases = λ w. refl;
        inflight = refl;
        delay = λ w. refl;
        st = refl;
      }

  append_message-Gains : (m : Message) → Gains s (append_message s a m) (λ w. w m)
  unfolding append_message
  append_message-Gains m = elim (Bool-cases (not (s.store a).locked && not (s.store a).in_band)) [
    | inl e ↦ rw e (Gains-Same (appended m) (push_group-Same _ a))
    | inr e ↦ rw e (appended m)
  ]

  unlocked : IsFree s a → Gains s (with_lock s a false) nothing
  unfolding flight_total delayed_total set_group
  unlocked free = record {
    well = with_lock-IsWellFormed s v a false (inr free);
    ready = λ w. omega (arith, with_lock-ready s v a w false);
    leases = λ w. refl;
    inflight = refl;
    delay = λ w. refl;
    st = refl;
  }

  unlocked-IsListed : IsListed (with_lock s a false) a
  unfolding set_group
  unlocked-IsListed = ground (arith, here)

-- An idle group that leaves the map takes nothing with it.
pub drop_idle-Gains :
    (s : Slot) (a : ℕ) → IsWellFormed s → IsListed s a → Gains s (drop_group_if_idle s a) nothing
unfolding flight_total delayed_total
drop_idle-Gains s a v here =
    let rest = drop_idle-KeepsRest s a in
    record {
      well = drop_idle-IsWellFormed s v a here;
      ready = λ w. omega (arith, drop_idle-ready s v a here w);
      leases = λ w. rw (rest.inflight);
      inflight = rest.inflight;
      delay = λ w. rw (rest.delayed);
      st = rest.st;
    }

pub Gains-trans :
    {s t u : Slot} {g h : (Message → ℕ) → ℕ}
    → Gains s t g
    → Gains t u h
    → Gains s u (λ w. g w + h w)
Gains-trans p q = record {
  well = q.well;
  ready = λ w. omega (arith, p.ready w, q.ready w);
  leases = λ w. q.leases w ∙ p.leases w;
  inflight = q.inflight ∙ p.inflight;
  delay = λ w. q.delay w ∙ p.delay w;
  st = q.st ∙ p.st;
}

pub Gains-eq :
    {s t : Slot} {g h : (Message → ℕ) → ℕ}
    → Gains s t g
    → ((w : Message → ℕ) → g w ≡ h w)
    → Gains s t h
Gains-eq p e = record {
  well = p.well;
  ready = λ w. omega (arith, p.ready w, e w);
  leases = p.leases;
  inflight = p.inflight;
  delay = p.delay;
  st = p.st;
}

-- Admitting a message adds it to the ready messages.
pub admit-Gains : (s : Slot) (m : Message) → IsWellFormed s → Gains s (admit s m) (λ w. w m)
unfolding admit flight_total delayed_total
admit-Gains s m v =
    let g = group_for-Grouped s (group m) v in
    let r = group_for s (group m) in
    let first : Gains s r.1 nothing = record {
      well = g.well;
      ready = λ w. omega (arith, g.ready w);
      leases = λ w. rw (g.rest.inflight);
      inflight = g.rest.inflight;
      delay = λ w. rw (g.rest.delayed);
      st = g.rest.st;
    } in
    Gains-eq (Gains-trans first (append_message-Gains r.1 g.well r.0 g.here m)) (λ w. omega arith)

-- Unlocking a group on which there is no lease changes nothing that the slot holds.
pub unlock-Gains :
    (s : Slot) (a : ℕ) → IsWellFormed s → IsListed s a → IsFree s a → Gains s (unlock s a) nothing
unfolding unlock
unlock-Gains s a v here free =
    let open_now = unlocked s v a here free in
    if_cases (λ t. Gains s t nothing) (empty (s.store a).msgs)
      (λ e.
        Gains-eq
          (Gains-trans open_now
            (drop_idle-Gains (with_lock s a false) a open_now.well (unlocked-IsListed s v a here)))
          (λ w. omega arith))
      (λ e.
        if_cases (λ t. Gains s t nothing) (not (s.store a).in_band)
          (λ b. Gains-Same open_now (push_group-Same _ a)) (λ b. open_now))

-- A message that is held back member_joins the delayed ones.
pub hold-delay :
    (s : Slot) (m : Message) (x : MsgState) (w : Message → ℕ)
    → delayed_total w (hold s m x) ≡ delayed_total w s + w m
unfolding hold move delayed_total
hold-delay s m x w =
    total-push_delay (delay_weight w) (record { msg = m; at = m.deliver_after }) s.delayed

pub hold-IsWellFormed :
    (s : Slot) (m : Message) (x : MsgState) → IsWellFormed s → IsWellFormed (hold s m x)
unfolding hold move
hold-IsWellFormed s m x v = stats-IsWellFormed _ _ (delayed-IsWellFormed s _ v)

pub Gains-IsGauged : {s t : Slot} → Gains s t nothing → IsGauged s → IsGauged t
Gains-IsGauged {s} {t} p g = record {
  ready = λ b. ap (λ x. x.ready b) p.st ∙ g.ready b ∙ ap pos (omega (arith, p.ready (in_bucket b)));
  inflight = ap (λ x. x.inflight) p.st ∙ g.inflight ∙ ap pos (sym (p.leases one));
  delayed = ap (λ x. x.delayed) p.st ∙ g.delayed ∙ ap pos (sym (p.delay one));
  bytes =
      ap (λ x. x.bytes) p.st
      ∙ g.bytes
      ∙ ap pos (omega (arith, p.ready size, p.leases size, p.delay size));
}
