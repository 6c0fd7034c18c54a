-- ===== src/Wal/Changes/Found.antt =====
-- A replay that puts, alters and deletes under keys finds what the changes leave, seen from what comes
-- after each.
use ryuk_dpq.Base.{
  ℕ, ◌≡◌, sym, ap, ◌∙◌, String, true, false, none, List, [], ◌∷◌, ◌++◌, str_eq, eq_iff, total,
  arith, inl, inr, Bool-cases, Option-cases,
}
use ryuk_dpq.Base.Dict.{lookup, put, delete, lookup-put, lookup-delete, put-IsKeyed, delete-IsKeyed}
use ryuk_dpq.Wal.Changes.{Change, sets, alters, ends, passes, is_set, left_by, NeverReturns}
use ryuk_dpq.Wal.Changes.Replayed.{
  alter, change, change_all, meet, meet_all, value_weight, total-change_all,
}
use ryuk_dpq.Wal.Changes.Order.{
  has_key, AreDistinct-append, has_key-append, AreRetired, IsOrdered, in_order, total-in_map,
  put-All, delete-All, lookup-IsCovered, widen,
}

module _ {V : Type 0} where
  new_key :
      (k : String) (v : V) (m : List (String × V)) (ks : List String) (cs : List (Change V))
      → AreRetired m ks (sets k v ∷ cs)
      → lookup k m ≡ none
      → has_key k ks ≡ false
  unfolding is_set
  new_key k v m ks cs r e = elim (Bool-cases (has_key k ks)) [
    | inl y ↦ absurd (ground (arith, eq_iff k k, r k y e))
    | inr n ↦ n
  ]

  put-IsOrdered :
      (k : String) (v : V) (m : List (String × V)) (ks : List String) (cs : List (Change V))
      → IsOrdered m ks cs
      → has_key k ks ≡ true
      → IsOrdered (put k v m) ks cs
  put-IsOrdered k v m ks cs h there = record {
    keyed = put-IsKeyed k v m h.keyed;
    distinct = h.distinct;
    covered = put-All (λ i. has_key i ks ≡ true) k v m there h.covered;
    retired = λ i met gone. h.retired i met (was_gone i gone);
  }
    where
      was_gone : (i : String) → lookup i (put k v m) ≡ none → lookup i m ≡ none
      was_gone i gone = ground (arith, gone, lookup-put k i v m)

  append-IsOrdered :
      (k : String) (v : V) (m : List (String × V)) (ks : List String) (cs : List (Change V))
      → IsOrdered m ks (sets k v ∷ cs)
      → lookup k m ≡ none
      → IsOrdered (put k v m) (ks ++ k ∷ []) cs
  unfolding is_set
  append-IsOrdered k v m ks cs h e =
      let grown = widen k m ks h.covered in
      record {
        keyed = put-IsKeyed k v m h.keyed;
        distinct = AreDistinct-append k ks (new_key k v m ks cs h.retired e) h.distinct;
        covered =
            put-All (λ i. has_key i (ks ++ k ∷ []) ≡ true) k v m
              (ground (arith, has_key-append k k ks, eq_iff k k)) grown;
        retired = λ i met gone. not_again i met gone;
      }
    where
      not_again :
          (i : String)
          → has_key i (ks ++ k ∷ []) ≡ true
          → lookup i (put k v m) ≡ none
          → is_set i cs ≡ false
      not_again i met gone =
          ground (arith, met, gone, lookup-put k i v m, has_key-append i k ks, h.retired i)

  set-IsOrdered :
      (k : String) (v : V) (m : List (String × V)) (ks : List String) (cs : List (Change V))
      → IsOrdered m ks (sets k v ∷ cs)
      → IsOrdered (put k v m) (meet m ks (sets k v)) cs
  unfolding meet is_set
  set-IsOrdered k v m ks cs h = elim (Option-cases (lookup k m)) [
    | inl e ↦ rw (e, meet) (append-IsOrdered k v m ks cs h e)
    | inr (u, e) ↦
        rw (e, meet) (put-IsOrdered k v m ks cs later (lookup-IsCovered k u m ks h.covered e))
  ]
    where
      later : IsOrdered m ks cs
      later = record {
        keyed = h.keyed;
        distinct = h.distinct;
        covered = h.covered;
        retired = λ i met gone. ground (arith, h.retired i met gone);
      }

  alter-IsOrdered :
      (k : String) (f : V → V) (m : List (String × V)) (ks : List String) (cs : List (Change V))
      → IsOrdered m ks cs
      → IsOrdered (alter k f (lookup k m) m) ks cs
  unfolding alter
  alter-IsOrdered k f m ks cs h = elim (Option-cases (lookup k m)) [
    | inl e ↦ rw (e, alter) h
    | inr (v, e) ↦
        rw (e, alter) (put-IsOrdered k (f v) m ks cs h (lookup-IsCovered k v m ks h.covered e))
  ]

  end-IsOrdered :
      (k : String) (m : List (String × V)) (ks : List String) (cs : List (Change V))
      → is_set k cs ≡ false
      → IsOrdered m ks cs
      → IsOrdered (delete k m) ks cs
  end-IsOrdered k m ks cs never h = record {
    keyed = delete-IsKeyed k m h.keyed;
    distinct = h.distinct;
    covered = delete-All (λ i. has_key i ks ≡ true) k m h.covered;
    retired = λ i met gone. not_again i met gone;
  }
    where
      not_again :
          (i : String) → has_key i ks ≡ true → lookup i (delete k m) ≡ none → is_set i cs ≡ false
      not_again i met gone = elim (Bool-cases (str_eq k i)) [
        | inl y ↦ ap (λ x. is_set x cs) (sym ((eq_iff k i).0 y)) ∙ never
        | inr n ↦ h.retired i met (ground (arith, n, gone, lookup-delete k i m))
      ]

  found_after :
      (w : V → ℕ) (cs : List (Change V)) (m : List (String × V)) (ks : List String)
      → IsOrdered m ks cs
      → NeverReturns cs
      → total w (in_order (change_all m cs) (meet_all m ks cs))
        ≡ total (value_weight w) (change_all m cs)
  unfolding change_all meet_all change meet is_set
  found_after w [] m ks h r = total-in_map w m ks [] h
  found_after w (sets k v ∷ cs) m ks h r =
      found_after w cs (put k v m) (meet m ks (sets k v)) (set-IsOrdered k v m ks cs h) r
  found_after w (alters k f ∷ cs) m ks h r =
      found_after w cs (alter k f (lookup k m) m) ks
        (alter-IsOrdered k f m ks cs (record {
          keyed = h.keyed;
          distinct = h.distinct;
          covered = h.covered;
          retired = h.retired;
        }))
        r
  found_after w (ends k ∷ cs) m ks h r =
      found_after w cs (delete k m) ks
        (end-IsOrdered k m ks cs r.0 (record {
          keyed = h.keyed;
          distinct = h.distinct;
          covered = h.covered;
          retired = h.retired;
        }))
        r.1
  found_after w (passes ∷ cs) m ks h r =
      found_after w cs m ks
        (record {
          keyed = h.keyed;
          distinct = h.distinct;
          covered = h.covered;
          retired = h.retired;
        })
        r

  pub found-left_by :
      (w : V → ℕ) (cs : List (Change V))
      → NeverReturns cs
      → total w (in_order (change_all [] cs) (meet_all [] [] cs)) ≡ total w (left_by cs)
  unfolding has_key
  found-left_by w cs r =
      let start : IsOrdered [] [] cs = record {
        keyed = tt;
        distinct = tt;
        covered = tt;
        retired = λ i met gone. cc;
      } in
      omega (arith, found_after w cs [] [] start r, total-change_all w cs [] tt)
