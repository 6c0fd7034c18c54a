-- ===== src/Requests/Numbers.antt =====
-- The number of a slot through an acknowledgement in slot.go.
use ryuk_dpq.Base.{
  ℕ, ◌≡◌, refl, sym, ap, ◌∙◌, Bool, true, false, not, some, List, [], ◌∷◌, ◌==◌, ==_iff,
  if◌then◌else◌, Bool-cases, Option-cases, inl, inr,
}
use ryuk_dpq.Base.Dict.{lookup, delete}
use ryuk_dpq.Engine.Deque.{front, empty}
use ryuk_dpq.Engine.Message.{Receipt, not_in_flight, lease_expired, ok, err, ok-injective}
use ryuk_dpq.Engine.State.{Slot, Lease, set_band, highest_band, refresh_hint, move}
use ryuk_dpq.Engine.Bands.{set_group, list_group, push_group, drop_group_if_idle, unlock}
use ryuk_dpq.Engine.Deliver
use ryuk_dpq.Engine.Deliver.{settle}
use ryuk_dpq.Engine.Queue.{find_slot}

refresh_hint-id : (s : Slot) → (refresh_hint s).id ≡ s.id
unfolding refresh_hint
refresh_hint-id s = elim (Option-cases (highest_band s)) [
  | inl e ↦ rw (refresh_hint, e) refl
  | inr (p, e) ↦ rw (refresh_hint, e) refl
]

-- Whichever branch is taken, the identifier stays.
either-id : (n : ℕ) (b : Bool) (s t : Slot) → s.id ≡ n → t.id ≡ n → (if b then s else t).id ≡ n
either-id n true s t p q = p
either-id n false s t p q = q

push_group-id : (s : Slot) (a : ℕ) → (push_group s a).id ≡ s.id
unfolding push_group list_group set_group set_band
push_group-id s a = elim (Option-cases (front (s.store a).msgs)) [
  | inl e ↦ rw (push_group, e) refl
  | inr (m, e) ↦
      rw (push_group, e) (either-id s.id (s.store a).locked s (list_group s a m) refl refl)
]

drop_group_if_idle-id : (s : Slot) (a : ℕ) → (drop_group_if_idle s a).id ≡ s.id
unfolding drop_group_if_idle
drop_group_if_idle-id s a =
    either-id s.id _ (record s { groups = delete (s.store a).id s.groups }) s refl refl

unlock-id : (s : Slot) (a : ℕ) → (unlock s a).id ≡ s.id
unfolding unlock set_group
unlock-id s a =
    let s1 = set_group s a (record (s.store a) { locked = false }) in
    either-id s.id (empty (s.store a).msgs) (drop_group_if_idle s1 a) _ (drop_group_if_idle-id s1 a)
      (either-id s.id (not (s.store a).in_band) (push_group s1 a) s1 (push_group-id s1 a) refl)

settle-id : (s : Slot) (r : Receipt) (l : Lease) → (settle s r l).id ≡ s.id
unfolding settle move
settle-id s r l = refresh_hint-id _ ∙ unlock-id _ l.g

pub ack-id : (s t : Slot) (r : Receipt) → Deliver.ack s r ≡ ok t → t.id ≡ s.id
unfolding Deliver.ack
ack-id s t r e = elim (Option-cases (lookup r.message_id s.inflight)) [
  | inl n ↦ let gone : err not_in_flight ≡ ok t = rw (Deliver.ack, n) at e in absurd cc
  | inr (l, n) ↦ elim (Bool-cases (l.epoch == r.epoch)) [
    | inr f ↦ let gone : err lease_expired ≡ ok t = rw (Deliver.ack, n, f) at e in absurd cc
    | inl y ↦
        let same : settle s r l ≡ t = ok-injective (rw (Deliver.ack, n, y) at e) in
        rw (← same) (settle-id s r l)
  ]
]

pub find_slot-id : (i : ℕ) (ss : List Slot) (s : Slot) → find_slot i ss ≡ some s → s.id ≡ i
unfolding find_slot
find_slot-id i [] s e = absurd cc
find_slot-id i (t ∷ ts) s e = elim (Bool-cases (t.id == i)) [
  | inl y ↦
      let here : some t ≡ some s = rw (find_slot, y) at e in
      let same : t ≡ s = cc in ap (λ x. x.id) (sym same) ∙ (==_iff t.id i).0 y
  | inr n ↦ find_slot-id i ts s (rw (find_slot, n) at e)
]
