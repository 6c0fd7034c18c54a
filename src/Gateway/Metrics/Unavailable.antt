-- ===== src/Gateway/Metrics/Unavailable.antt =====
-- The slots of a distributed queue that the figures leave out.
use ryuk_dpq.Base.{
  ℕ, ◌+◌, ◌≡◌, refl, String, Bool, true, false, Option, none, some, List, [], ◌∷◌, if◌then◌else◌,
  str_eq, total, arith, inl, inr, Bool-cases,
}
use ryuk_dpq.Base.Dict.{lookup, put, total-put, total-put_over}
use ryuk_dpq.Gateway.Routing.{Answer, answered, refused}
use ryuk_dpq.Gateway.Cache.{is_not_found}
use ryuk_dpq.Gateway.Metrics.{
  NodeStats, no_stats, one_more, slots_by_owner, count_owner, ask_owners, distributed_stats,
}

-- The node answers for its slots: with figures, or that it has not been sent anything for the queue.
abbrev pub is_heard : Option (Answer NodeStats) → Bool
is_heard none = false
is_heard (some (answered s)) = true
is_heard (some (refused code)) = is_not_found code

module _ (says : String → Option (Answer NodeStats)) where
  -- One for a slot with an owner that is not heard.
  abbrev pub unheard : ℕ × String → ℕ
  unheard (slot, owner) = if str_eq owner "" then 0 else if is_heard (says owner) then 0 else 1

  abbrev held_unheard : String × ℕ → ℕ
  held_unheard (owner, held) = if is_heard (says owner) then 0 else held

  count_owner-missing :
      (o : Option (Answer NodeStats)) (held : ℕ) (t : NodeStats) (m : ℕ)
      → (count_owner o held (t, m)).1 ≡ m + (if is_heard o then 0 else held)
  unfolding count_owner
  count_owner-missing none held t m = refl
  count_owner-missing (some (answered s)) held t m = omega arith
  count_owner-missing (some (refused code)) held t m = ground arith

  ask_owners-missing :
      (os : List (String × ℕ)) (r : NodeStats × ℕ)
      → (ask_owners says os r).1 ≡ r.1 + total held_unheard os
  unfolding ask_owners
  ask_owners-missing [] r = omega arith
  ask_owners-missing ((owner, held) ∷ os) r = omega (
    arith,
    ask_owners-missing os (count_owner (says owner) held r),
    count_owner-missing (says owner) held r.0 r.1,
  )

  -- A slot more of one owner.
  held_unheard-put :
      (owner : String) (out : List (String × ℕ)) (o : Option ℕ)
      → lookup owner out ≡ o
      → total held_unheard (put owner (one_more o) out)
        ≡ total held_unheard out + (if is_heard (says owner) then 0 else 1)
  unfolding one_more
  held_unheard-put owner out none e = total-put held_unheard owner 1 out e
  held_unheard-put owner out (some n) e =
      ground (arith, total-put_over held_unheard owner n (n + 1) out e)

  slots_by_owner-unheard :
      (os : List (ℕ × String)) → total held_unheard (slots_by_owner os) ≡ total unheard os
  unfolding slots_by_owner
  slots_by_owner-unheard [] = refl
  slots_by_owner-unheard ((slot, owner) ∷ os) =
      let out = slots_by_owner os in
      elim (Bool-cases (str_eq owner "")) [
        | inl e ↦ rw (slots_by_owner, e) (omega (arith, slots_by_owner-unheard os))
        | inr e ↦
            rw (slots_by_owner, e)
              (omega (
                arith,
                held_unheard-put owner out (lookup owner out) refl,
                slots_by_owner-unheard os,
              ))
      ]

  -- The slots that are reported as unavailable are, one by one, those whose owner is no member that is
  -- up, or gives no answer but that it has never been sent anything for the queue.
  pub unavailable_slots_counted :
      (org name : String) (slot_owners : List (ℕ × String))
      → (distributed_stats says org name slot_owners).1 ≡ total unheard slot_owners
  unfolding distributed_stats
  unavailable_slots_counted org name slot_owners = omega (
    arith,
    ask_owners-missing (slots_by_owner slot_owners) (no_stats org name, 0),
    slots_by_owner-unheard slot_owners,
  )
