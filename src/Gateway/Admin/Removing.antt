-- ===== src/Gateway/Admin/Removing.antt =====
-- DeleteQueue and the dead-letter queues that are named in the table.
use ryuk_dpq.Base.{
  ◌≡◌, refl, sym, ◌∙◌, inl, inr, String, true, false, Option, none, some, arith, if◌then◌else◌,
  str_eq, eq_iff, Bool-cases, ◌==◌, ==_iff, length, length-zero, subst,
}
use ryuk_dpq.Base.Dict.{lookup, delete, lookup-delete}
use ryuk_dpq.Gateway.Moves.{Call, done, failed, unsure}
use ryuk_dpq.Gateway.Owners.{Cluster}
use ryuk_dpq.Gateway.Routing.{Answer, answered, refused, code_other}
use ryuk_dpq.Gateway.Cache.Entries.{Every}
use ryuk_dpq.Gateway.Admin.{
  deleting, QueueConfig, Tables, no_owners, config, update_row, with_state, evict,
  dead_letter_users,
}
use ryuk_dpq.Gateway.Admin.Operations.{DeleteOutcomes, remove_rows, delete_known, delete_queue}
use ryuk_dpq.Gateway.Admin.Links.{
  links, IsKnownAs, Stands, AreLinked, IsKnown, IsSound, config-Gives,
}
use ryuk_dpq.Gateway.Admin.Creating.{evict-IsSound}
use ryuk_dpq.Gateway.Admin.Changing.{update_row-IsSound}
use ryuk_dpq.Gateway.Admin.Leaving.{
  IsLeaving, IsUnused, dead_letter_users-IsUnused, evict-IsLeaving, links-update_row,
  settle_owner-IsLeaving,
}

module _ {F : Type 0} where
  abbrev removed : String → Tables F → Tables F
  removed name t = record t {
    queues = delete name t.queues;
    placement = λ q. if str_eq q name then no_owners else t.placement q;
  }

  links-removed :
      (name : String) (t : Tables F) (k : String)
      → str_eq name k ≡ false
      → links (removed name t) k ≡ links t k
  links-removed name t k n = rw (lookup-delete, n) refl

  removed-none :
      (name : String) (t : Tables F) (k : String)
      → str_eq name k ≡ true
      → links (removed name t) k ≡ none
  removed-none name t k y = rw (lookup-delete, y) refl

  removed-IsSound : (name : String) (t : Tables F) → IsLeaving name t → IsSound (removed name t)
  removed-IsSound name t v = record { linked = linked; known = known }
    where
      stands :
          (d : String)
          → str_eq d name ≡ false
          → Stands (links t) d
          → Stands (links (removed name t)) d
      stands d n (inl e) = inl e
      stands d n (inr (s, e)) =
          let m : str_eq name d ≡ false = ground (arith, eq_iff d name, eq_iff name d) in
          inr (s, links-removed name t d m ∙ e)

      linked : AreLinked (links (removed name t))
      linked k s e = elim (Bool-cases (str_eq name k)) [
        | inl y ↦ let gone : none ≡ some s = sym (removed-none name t k y) ∙ e in absurd (cc)
        | inr n ↦
            let at : links t k ≡ some s = sym (links-removed name t k n) ∙ e in
            let m : str_eq k name ≡ false = ground (arith, eq_iff k name, eq_iff name k) in
            stands s.dead_letter_queue (v.unused k s at m) (v.sound.linked k s at)
      ]

      known : Every (IsKnown (links (removed name t))) t.cache
      known k x e = elim (Bool-cases (str_eq name k)) [
        | inl y ↦
            let at : lookup name t.cache ≡ some x = rw ((eq_iff name k).0 y) e in
            let gone : none ≡ some x = sym v.uncached ∙ at in absurd (cc)
        | inr n ↦ subst (λ o. IsKnownAs o x) (sym (links-removed name t k n)) (v.sound.known k x e)
      ]

  remove_rows-IsSound :
      (o : DeleteOutcomes) (name : String) (told : Option String) (t : Tables F)
      → IsLeaving name t
      → IsSound (remove_rows o name told t).1
  unfolding remove_rows
  remove_rows-IsSound o name told t v =
      by_calls o.drop_slots o.remove (record { linked = v.sound.linked; known = v.sound.known })
        (removed-IsSound name t v)
    where
      by_calls :
          (drop remove : Call) {t1 t2 : Tables F}
          → IsSound t1
          → IsSound t2
          → IsSound
              (elim drop as (λ _. Answer (Option String) × Tables F) [
                | failed ↦ (refused code_other, t)
                | unsure ↦ (refused code_other, t1)
                | done ↦ elim remove as (λ _. Answer (Option String) × Tables F) [
                  | failed ↦ (refused code_other, t1)
                  | unsure ↦ (refused code_other, t2)
                  | done ↦ (answered told, evict name t2)
                ]
              ]).1
      by_calls failed r w x = v.sound
      by_calls unsure r w x = w
      by_calls done failed w x = w
      by_calls done unsure w x = x
      by_calls done done {t2} w x = evict-IsSound name t2 x

  delete_known-IsSound :
      (c : Cluster) (o : DeleteOutcomes) (name : String) (cfg : QueueConfig F) (t : Tables F)
      → IsSound t
      → IsSound (delete_known c o name cfg t).1
  unfolding delete_known
  delete_known-IsSound c o name cfg t v = elim (Bool-cases o.list) [
    | inr l ↦ rw (delete_known, l) v
    | inl l ↦ elim (Bool-cases (length (dead_letter_users name t.queues) == 0)) [
      | inr n ↦ rw (delete_known, l, n) v
      | inl y ↦
          let nobody =
            length-zero (dead_letter_users name t.queues)
              ((==_iff (length (dead_letter_users name t.queues)) 0).0 y) in
          let unused = dead_letter_users-IsUnused name t.queues nobody in
          let marked = update_row name (with_state deleting) t in
          let w = update_row-IsSound name (with_state deleting) t (λ row. refl) v in
          let u : IsUnused name (links marked) = λ k s e n.
            unused k s (sym (links-update_row name (with_state deleting) t k (λ row. refl)) ∙ e)
              n in
          let gone =
            settle_owner-IsLeaving c o.owner name cfg (evict name marked)
              (evict-IsLeaving name marked w u) in
          rw (delete_known, l, y) (by_mark o.mark marked _ w (remove_rows-IsSound o name _ _ gone))
    ]
  ]
    where
      by_mark :
          (mark : Call) (marked : Tables F) (r : Answer (Option String) × Tables F)
          → IsSound marked
          → IsSound r.1
          → IsSound
              (elim mark as (λ _. Answer (Option String) × Tables F) [
                | failed ↦ (refused code_other, t)
                | unsure ↦ (refused code_other, marked)
                | done ↦ r
              ]).1
      by_mark failed m r w x = v
      by_mark unsure m r w x = w
      by_mark done m r w x = x

  pub delete_queue-IsSound :
      (c : Cluster) (o : DeleteOutcomes) (name : String) (t : Tables F)
      → IsSound t
      → IsSound (delete_queue c o name t).1
  unfolding delete_queue
  delete_queue-IsSound c o name t v =
      let (g, w) = config-Gives o.own t name v in
      read_then (config o.own t name).0 (config o.own t name).1 w
    where
      read_then :
          (a : Answer (QueueConfig F)) (t1 : Tables F)
          → IsSound t1
          → IsSound
              (elim a as (λ _. Answer (Option String) × Tables F) [
                | refused e ↦ (refused e, t1)
                | answered cfg ↦ delete_known c o name cfg t1
              ]).1
      read_then (refused e) t1 w = w
      read_then (answered cfg) t1 w = delete_known-IsSound c o name cfg t1 w
