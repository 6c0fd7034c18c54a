-- ===== src/Engine/Migrate/Splitting.antt =====
-- What Absorb puts in groups and what it holds back are the messages that came.
use ryuk_dpq.Base.{
  ℕ, ◌+◌, ◌≡◌, refl, String, not, ◌&&◌, Option, none, some, List, [], ◌∷◌, ◌++◌, arith, inl, inr,
  Bool-cases, total, total-append,
}
use ryuk_dpq.Base.Dict.{lookup, put, total-put, total-put_over}
use ryuk_dpq.Engine.Message.{Message, after, group, is_zero_time}
use ryuk_dpq.Engine.Migrate.{split_due}

-- The messages of all groups, by a measure.
abbrev pub group_weight : (Message → ℕ) → String × List Message → ℕ
group_weight w (gid, list) = total w list

-- What split_due does with a message that is due, from what its group has.
abbrev filed :
    Message → List (String × List Message) → Option (List Message) → List (String × List Message)
filed m gs found = elim found [
  | none ↦ put (group m) (m ∷ []) gs
  | some list ↦ put (group m) (list ++ m ∷ []) gs
]

total-filed :
    (w : Message → ℕ) (m : Message) (gs : List (String × List Message)) (o : Option (List Message))
    → lookup (group m) gs ≡ o
    → total (group_weight w) (filed m gs o) ≡ total (group_weight w) gs + w m
total-filed w m gs none e = omega (arith, total-put (group_weight w) (group m) (m ∷ []) gs e)
total-filed w m gs (some list) e = omega (
  arith,
  total-put_over (group_weight w) (group m) list (list ++ m ∷ []) gs e,
  total-append w list (m ∷ []),
)

-- Each message goes to its group or to those that are held back.
pub split_due-total :
    (w : Message → ℕ) (ms : List Message) (now : ℕ) (gs : List (String × List Message))
    → total (group_weight w) (split_due ms now gs).0 + total w (split_due ms now gs).1
      ≡ total (group_weight w) gs + total w ms
unfolding split_due
split_due-total w [] now gs = refl
split_due-total w (m ∷ ms) now gs =
    elim (Bool-cases (not (is_zero_time m.deliver_after) && after m.deliver_after now)) [
      | inl e ↦ rw (split_due, e) (omega (arith, split_due-total w ms now gs))
      | inr e ↦
          rw (split_due, e)
            (omega (
              arith,
              split_due-total w ms now (filed m gs (lookup (group m) gs)),
              total-filed w m gs (lookup (group m) gs) refl,
            ))
    ]
