-- ===== src/Engine/Accounts/Same.antt =====
-- Operations that only list groups in bands and refresh the hint: what the slot holds is the same.
use ryuk_dpq.Base.{
  ℕ, ◌≡◌, refl, sym, ◌∙◌, ap, Bool, Option, List, [], ◌∷◌, inl, inr, String, arith, Bool-cases,
  Option-cases, total, All,
}
use ryuk_dpq.Base.Int.{pos}
use ryuk_dpq.Engine.Deque.{Deque, front, all}
use ryuk_dpq.Engine.Message.{Message, message_zero}
use ryuk_dpq.Engine.State.{
  Slot, Group, BandEntry, entry_zero, set_band, clear_band, refresh_hint, highest_band,
}
use ryuk_dpq.Engine.Bands.{set_group, list_group, push_group, drop_band, leave_band, keep_band}
use ryuk_dpq.Engine.Accounts.{
  group_total, ready_total, flight_total, delayed_total, held, IsNamed, IsWellFormed, IsGauged,
  in_bucket, one, size,
}

-- Two slots that differ in what concerns the bands and the hint only.
pub record Same (s t : Slot) : Type 0 where
  pub groups : t.groups ≡ s.groups
  pub fresh : t.fresh ≡ s.fresh
  pub inflight : t.inflight ≡ s.inflight
  pub delayed : t.delayed ≡ s.delayed
  pub timers : t.timers ≡ s.timers
  pub epoch_seq : t.epoch_seq ≡ s.epoch_seq
  pub number : t.id ≡ s.id
  pub st : t.st ≡ s.st
  pub ids : (a : ℕ) → (t.store a).id ≡ (s.store a).id
  pub msgs : (a : ℕ) → (t.store a).msgs ≡ (s.store a).msgs
  pub locked : (a : ℕ) → (t.store a).locked ≡ (s.store a).locked

pub Same-refl : (s : Slot) → Same s s
Same-refl s = record {
  groups = refl;
  fresh = refl;
  inflight = refl;
  delayed = refl;
  timers = refl;
  epoch_seq = refl;
  number = refl;
  st = refl;
  ids = λ a. refl;
  msgs = λ a. refl;
  locked = λ a. refl;
}

pub Same-trans : {s t u : Slot} → Same s t → Same t u → Same s u
Same-trans p q = record {
  groups = q.groups ∙ p.groups;
  fresh = q.fresh ∙ p.fresh;
  inflight = q.inflight ∙ p.inflight;
  delayed = q.delayed ∙ p.delayed;
  timers = q.timers ∙ p.timers;
  epoch_seq = q.epoch_seq ∙ p.epoch_seq;
  number = q.number ∙ p.number;
  st = q.st ∙ p.st;
  ids = λ a. q.ids a ∙ p.ids a;
  msgs = λ a. q.msgs a ∙ p.msgs a;
  locked = λ a. q.locked a ∙ p.locked a;
}

group_totals-eq :
    (w : Message → ℕ) (f g : ℕ → Group) (gs : List (String × ℕ))
    → ((a : ℕ) → (g a).msgs ≡ (f a).msgs)
    → total (group_total w g) gs ≡ total (group_total w f) gs
group_totals-eq w f g [] h = refl
group_totals-eq w f g ((k, a) ∷ gs) h =
    omega (arith, ap (λ d. total w (all d)) (h a), group_totals-eq w f g gs h)

IsNamed-eq :
    (f g : ℕ → Group) (gs : List (String × ℕ))
    → ((a : ℕ) → (g a).id ≡ (f a).id)
    → All (IsNamed f) gs
    → All (IsNamed g) gs
IsNamed-eq f g [] h n = tt
IsNamed-eq f g ((k, a) ∷ gs) h n = (h a ∙ n.0, IsNamed-eq f g gs h n.1)

module _ {s t : Slot} (e : Same s t) where
  pub Same-ready : (w : Message → ℕ) → ready_total w t ≡ ready_total w s
  unfolding ready_total
  Same-ready w = rw (e.groups) (group_totals-eq w s.store t.store s.groups e.msgs)

  pub Same-flight : (w : Message → ℕ) → flight_total w t ≡ flight_total w s
  unfolding flight_total
  Same-flight w = rw (e.inflight)

  pub Same-delayed : (w : Message → ℕ) → delayed_total w t ≡ delayed_total w s
  unfolding delayed_total
  Same-delayed w = rw (e.delayed)

  pub Same-held : (w : Message → ℕ) → held w t ≡ held w s
  Same-held w = omega (arith, Same-ready w, Same-flight w, Same-delayed w)

  pub Same-IsGauged : IsGauged s → IsGauged t
  Same-IsGauged g = record {
    ready = λ b. ap (λ x. x.ready b) e.st ∙ g.ready b ∙ ap pos (sym (Same-ready (in_bucket b)));
    inflight = ap (λ x. x.inflight) e.st ∙ g.inflight ∙ ap pos (sym (Same-flight one));
    delayed = ap (λ x. x.delayed) e.st ∙ g.delayed ∙ ap pos (sym (Same-delayed one));
    bytes = ap (λ x. x.bytes) e.st ∙ g.bytes ∙ ap pos (sym (Same-held size));
  }

  pub Same-IsWellFormed : IsWellFormed s → IsWellFormed t
  Same-IsWellFormed v = record {
    valid = λ a. rw (e.msgs a) (v.valid a);
    keyed = rw (e.groups) v.keyed;
    named = rw (e.groups) (IsNamed-eq s.store t.store s.groups e.ids v.named);
    below = rw (e.groups, e.fresh) v.below;
    listed = λ a. rw (e.msgs a, e.ids a, e.groups) (v.listed a);
    leases_keyed = rw (e.inflight) v.leases_keyed;
    locks = λ k l h. e.locked l.g ∙ v.locks k l (rw (e.inflight) at h);
    lists = λ k l h. rw (e.ids l.g, e.groups) (v.lists k l (rw (e.inflight) at h));
    apart = λ j k l n h i. v.apart j k l n (rw (e.inflight) at h) (rw (e.inflight) at i);
    ids = λ k l h. v.ids k l (rw (e.inflight) at h);
  }

-- A group changed in what concerns the bands only.
pub set_group-Same :
    (s : Slot) (a : ℕ) (g : Group)
    → g.id ≡ (s.store a).id
    → g.msgs ≡ (s.store a).msgs
    → g.locked ≡ (s.store a).locked
    → Same s (set_group s a g)
unfolding set_group
set_group-Same s a g i m l = record {
  groups = refl;
  fresh = refl;
  inflight = refl;
  delayed = refl;
  timers = refl;
  epoch_seq = refl;
  number = refl;
  st = refl;
  ids = λ b. ground arith;
  msgs = λ b. ground arith;
  locked = λ b. ground arith;
}

bands-Same :
    (s : Slot) (mask : ℕ → ℕ → Bool) (bands : ℕ → Option (Deque BandEntry))
    → Same s (record s { mask = mask; bands = bands })
bands-Same s mask bands = record {
  groups = refl;
  fresh = refl;
  inflight = refl;
  delayed = refl;
  timers = refl;
  epoch_seq = refl;
  number = refl;
  st = refl;
  ids = λ a. refl;
  msgs = λ a. refl;
  locked = λ a. refl;
}

hint-Same : (s : Slot) (h q : ℕ) → Same s (record s { hint = h; head_seq = q })
hint-Same s h q = record {
  groups = refl;
  fresh = refl;
  inflight = refl;
  delayed = refl;
  timers = refl;
  epoch_seq = refl;
  number = refl;
  st = refl;
  ids = λ a. refl;
  msgs = λ a. refl;
  locked = λ a. refl;
}

pub refresh_hint-Same : (s : Slot) → Same s (refresh_hint s)
unfolding refresh_hint
refresh_hint-Same s = elim (Option-cases (highest_band s)) [
  | inl e ↦ rw (e, refresh_hint) (hint-Same s _ _)
  | inr (p, e) ↦ rw (e, refresh_hint) (hint-Same s _ _)
]

list_group-Same : (s : Slot) (a : ℕ) (m : Message) → Same s (list_group s a m)
unfolding list_group set_band
list_group-Same s a m = Same-trans (set_group-Same s a _ refl refl refl) (bands-Same _ _ _)

pub push_group-Same : (s : Slot) (a : ℕ) → Same s (push_group s a)
unfolding push_group
push_group-Same s a = elim (Option-cases (front (s.store a).msgs)) [
  | inl e ↦ rw (e, push_group) (Same-refl s)
  | inr (m, e) ↦ elim (Bool-cases (s.store a).locked) [
    | inl l ↦ rw (e, push_group, l) (Same-refl s)
    | inr l ↦ rw (e, push_group, l) (list_group-Same s a m)
  ]
]

pub drop_band-Same : (s : Slot) (p : ℕ) → Same s (drop_band s p)
unfolding drop_band clear_band
drop_band-Same s p = bands-Same s _ _

pub clear_band-Same : (s : Slot) (p : ℕ) → Same s (clear_band s p)
unfolding clear_band
clear_band-Same s p = bands-Same s _ _

pub leave_band-Same : (s : Slot) (a : ℕ) → Same s (leave_band s a)
unfolding leave_band
leave_band-Same s a = set_group-Same s a _ refl refl refl

pub keep_band-Same : (s : Slot) (p : ℕ) (d : Deque BandEntry) → Same s (keep_band s p d)
unfolding keep_band
keep_band-Same s p d = bands-Same s s.mask _
