-- ===== src/Engine/Migrate/Draining.antt =====
-- The drain of a slot returns everything that the slot holds and leaves it empty.
use ryuk_dpq.Base.{
  ℕ, zero, suc, ◌<◌, ◌≡◌, refl, sym, ap, ◌∙◌, String, false, none, some, List, [], ◌∷◌, ◌++◌, arith,
  inl, inr, if_cases, total, total-append, str_eq, length, All,
}
use ryuk_dpq.Base.Dict.{lookup, IsKeyed}
use ryuk_dpq.Engine.Deque.{Deque, len, pop_front, all}
use ryuk_dpq.Engine.Deque.Laws.{IsValid, pop_front_cases, len-all}
use ryuk_dpq.Engine.Message.{Message, message_zero}
use ryuk_dpq.Engine.State.{Slot, reset_gauges}
use ryuk_dpq.Engine.Bands.{set_group}
use ryuk_dpq.Engine.Handoff.{drain_deque, drain_groups, drain, lease_msgs, delay_msgs}
use ryuk_dpq.Engine.Accounts.{
  IsNamed, group_total, ready_total, flight_total, delayed_total, held, IsWellFormed, IsGauged,
}
use ryuk_dpq.Engine.Migrate.Sorting.{total-sort_by_seq}
use ryuk_dpq.Engine.Migrate.Copying.{total-lease_msgs, total-delay_msgs}
use ryuk_dpq.Engine.Accounts.Groups.{total-update_unlisted, update-IsNamed}
use ryuk_dpq.Engine.Accounts.Same.{refresh_hint-Same, Same-held, Same-IsWellFormed, Same-IsGauged}

-- All messages of a deque in order, and an empty deque.
record Poured (d : Deque Message) (r : List Message × Deque Message) : Type 0 where
  out : r.0 ≡ all d
  nothing : all r.1 ≡ []
  valid : IsValid r.1

drain_deque-Poured :
    (f : ℕ) (d : Deque Message) → IsValid d → length (all d) < f → Poured d (drain_deque f d)
unfolding drain_deque
drain_deque-Poured zero d v h = absurd (omega (arith, h))
drain_deque-Poured (suc f) d v h = elim (pop_front_cases d v) [
  | inl (e, p) ↦ rw (p, drain_deque) record { out = sym e; nothing = e; valid = v }
  | inr (m, p, e, ok) ↦
      let more = drain_deque-Poured f (pop_front d).1 ok (omega (arith, ap length e)) in
      rw (p, drain_deque)
        record {
          out = ap (λ l. m ∷ l) more.out ∙ sym e;
          nothing = more.nothing;
          valid = more.valid;
        }
]

none_ne : {A : Type 0} {a : A} → none ≡ some a → ⊥
none_ne h = cc

some-injective : {A : Type 0} {a b : A} → some a ≡ some b → a ≡ b
some-injective h = cc

-- What the drain of some groups of a slot does.
record Emptied (s : Slot) (gs : List (String × ℕ)) (r : List Message × Slot) : Type 0 where
  out :
      (w : Message → ℕ)
      → IsKeyed gs
      → All (IsNamed s.store) gs
      → total w r.0 ≡ total (group_total w s.store) gs
  names : (a : ℕ) → (r.1.store a).id ≡ (s.store a).id
  valid : (a : ℕ) → IsValid (r.1.store a).msgs
  nothing : (a : ℕ) (k : String) → lookup k gs ≡ some a → all (r.1.store a).msgs ≡ []
  stays : (a : ℕ) → all (s.store a).msgs ≡ [] → all (r.1.store a).msgs ≡ []
  frame : r.1 ≡ record s { store = r.1.store }

drain_groups-Emptied :
    (gs : List (String × ℕ)) (s : Slot)
    → ((a : ℕ) → IsValid (s.store a).msgs)
    → Emptied s gs (drain_groups gs s)
unfolding drain_groups set_group lookup
drain_groups-Emptied [] s v = record {
  out = λ w k n. refl;
  names = λ a. refl;
  valid = v;
  nothing = λ a k h. cc;
  stays = λ a h. h;
  frame = refl;
}
drain_groups-Emptied ((gid, a) ∷ gs) s v =
    let p =
      drain_deque-Poured (suc (len (s.store a).msgs)) (s.store a).msgs (v a)
        (omega (arith, len-all (s.store a).msgs)) in
    let g = record (s.store a) {
      msgs = (drain_deque (suc (len (s.store a).msgs)) (s.store a).msgs).1;
    } in
    let s1 = set_group s a g in
    let rest = drain_groups-Emptied gs s1 (λ b. ground (arith, v b, p.valid)) in
    record {
      out = λ w k n. omega (
        arith,
        total-append w (drain_deque (suc (len (s.store a).msgs)) (s.store a).msgs).0
            (drain_groups gs s1).0,
        ap (total w) p.out,
        rest.out w k.1 (update-IsNamed s.store a g gs refl n.1),
        total-update_unlisted w s.store a g gs k.1 n.1
            (λ e. none_ne (sym k.0 ∙ ap (λ x. lookup x gs) (sym n.0) ∙ e)),
      );
      names = λ b. rest.names b ∙ ground arith;
      valid = rest.valid;
      nothing = λ b k h.
          if_cases (λ x. x ≡ some b → all ((drain_groups gs s1).1.store b).msgs ≡ []) (str_eq gid k)
            (λ _ e.
              let here : a ≡ b = some-injective e in rest.stays b (ground (arith, here, p.nothing)))
            (λ _ e. rest.nothing b k e) h;
      stays = λ b h. rest.stays b (ground (arith, h, p.nothing));
      frame = rest.frame;
    }

-- What the drain of a slot does: it returns everything that the slot held, and the slot that is left
-- has its number, is well formed with correct gauges, and holds nothing.
pub record Drains (s : Slot) (r : List Message × Slot) : Type 0 where
  pub out : (w : Message → ℕ) → total w r.0 ≡ held w s
  pub well : IsWellFormed r.1
  pub gauged : IsGauged r.1
  pub left : (w : Message → ℕ) → held w r.1 ≡ 0
  pub number : r.1.id ≡ s.id

pub drain-Drains : (s : Slot) → IsWellFormed s → Drains s (drain s)
unfolding drain reset_gauges ready_total flight_total delayed_total lookup
drain-Drains s v =
    let r = drain_groups s.groups s in
    let e = drain_groups-Emptied s.groups s v.valid in
    let out = lease_msgs s.inflight ++ r.0 ++ delay_msgs s.delayed in
    let bare = record r.1 {
      delayed = [];
      inflight = [];
      groups = [];
      bands = λ _. none;
      mask = λ _ _. false;
      timers = [];
      st = reset_gauges r.1.st;
    } in
    let same = refresh_hint-Same bare in
    let well : IsWellFormed bare = record {
      valid = e.valid;
      keyed = tt;
      named = tt;
      below = tt;
      listed = λ a. elim (v.listed a) [
        | inl none_here ↦ inl (e.stays a none_here)
        | inr here ↦ inl (e.nothing a (s.store a).id here)
      ];
      leases_keyed = tt;
      locks = λ k l h. absurd (none_ne h);
      lists = λ k l h. absurd (none_ne h);
      apart = λ j k l n h. absurd (none_ne h);
      ids = λ k l h. absurd (none_ne h);
    } in
    record {
      out = λ w. omega (
        arith,
        total-sort_by_seq w out,
        total-append w (lease_msgs s.inflight ++ r.0) (delay_msgs s.delayed),
        total-append w (lease_msgs s.inflight) r.0,
        total-lease_msgs w s.inflight,
        total-delay_msgs w s.delayed,
        e.out w v.keyed v.named,
      );
      well = Same-IsWellFormed same well;
      gauged =
          Same-IsGauged same
            record { ready = λ b. refl; inflight = refl; delayed = refl; bytes = refl };
      left = λ w. Same-held same w;
      number = same.number ∙ ap (λ (x : Slot). x.id) e.frame;
    }
