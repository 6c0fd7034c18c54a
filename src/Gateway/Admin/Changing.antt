-- ===== src/Gateway/Admin/Changing.antt =====
-- UpdateQueue and the dead-letter queues that are named in the table.
use ryuk_dpq.Base.{
  ◌≡◌, ◌≢◌, refl, sym, ap, ◌∙◌, inl, inr, String, false, some, str_eq, eq_iff, Bool-cases,
  Option-cases,
}
use ryuk_dpq.Base.Dict.{lookup}
use ryuk_dpq.Gateway.Moves.{Call, done, failed, unsure}
use ryuk_dpq.Gateway.Routing.{Answer, answered, refused}
use ryuk_dpq.Gateway.Cache.Entries.{Gives}
use ryuk_dpq.Gateway.Admin.{
  is_deleting, Settings, Row, QueueConfig, Tables, config, update_row, with_settings,
}
use ryuk_dpq.Gateway.Admin.Operations.{
  UpdateOutcomes, check_dead_letter, write_settings, kept_width, update_known, update_queue,
}
use ryuk_dpq.Gateway.Admin.Links.{
  row_settings, links, Stands, IsKnown, IsSound, config-Gives, with_row, with_row-IsSound,
  with_row-evict-IsSound,
}
use ryuk_dpq.Gateway.Admin.Creating.{check_dead_letter-Checks}

module _ {F : Type 0} where
  pub update_row-there :
      (name : String) (f : Row F → Row F) (t : Tables F) (row : Row F)
      → lookup name t.queues ≡ some row
      → update_row name f t ≡ with_row name (f row) t
  unfolding update_row
  update_row-there name f t row e = rw (update_row, e) refl

  write_settings-IsSound :
      (call : Call) (name : String) (s : Settings F) (t : Tables F)
      → call ≢ unsure
      → IsSound t
      → Stands (links t) s.dead_letter_queue
      → IsSound (write_settings call name s t).1
  unfolding write_settings
  write_settings-IsSound call name s t sure v stands = elim (Option-cases (lookup name t.queues)) [
    | inl e ↦ rw (write_settings, e) v
    | inr (row, e) ↦ by_call call row e sure
  ]
    where
      by_call :
          (call : Call) (row : Row F)
          → lookup name t.queues ≡ some row
          → call ≢ unsure
          → IsSound (write_settings call name s t).1
      by_call unsure row e sure = absurd (sure refl)
      by_call failed row e sure = rw (write_settings, e) v
      by_call done row e sure =
          rw (write_settings, e, update_row-there name (with_settings s) t row e)
            (with_row-evict-IsSound name (with_settings s row) t v stands)

  update_known-IsSound :
      (o : UpdateOutcomes) (name : String) (s : Settings F) (cfg : QueueConfig F) (t : Tables F)
      → o.update ≢ unsure
      → IsSound t
      → links t name ≡ some cfg.row.settings
      → IsSound (update_known o name s cfg t).1
  unfolding update_known
  update_known-IsSound o name s cfg t sure v known = elim (Bool-cases (is_deleting cfg.row.state)) [
    | inl b ↦ rw (update_known, b) v
    | inr b ↦ elim (Bool-cases (str_eq s.dead_letter_queue cfg.row.settings.dead_letter_queue)) [
      | inl same ↦
          let d = (eq_iff s.dead_letter_queue cfg.row.settings.dead_letter_queue).0 same in
          let stands : Stands (links t) s.dead_letter_queue =
            rw d (v.linked name cfg.row.settings known) in
          rw (update_known, b, same)
            (write_settings-IsSound o.update name (kept_width cfg s) t sure v stands)
      | inr other ↦
          let ch = check_dead_letter-Checks false o.dead_letter t s.dead_letter_queue v in
          let x = check_dead_letter false o.dead_letter t s.dead_letter_queue in
          elim (Option-cases x.0) [
            | inr (e, p) ↦ rw (update_known, b, other, p) ch.sound
            | inl p ↦
                let stands : Stands (links x.1) s.dead_letter_queue = rw ch.rows (ch.passes p) in
                rw (update_known, b, other, p)
                  (write_settings-IsSound o.update name (kept_width cfg s) x.1 sure ch.sound stands)
          ]
    ]
  ]

  pub update_queue-IsSound :
      (o : UpdateOutcomes) (name : String) (s : Settings F) (t : Tables F)
      → o.update ≢ unsure
      → IsSound t
      → IsSound (update_queue o name s t).1
  unfolding update_queue
  update_queue-IsSound o name s t sure v =
      let (g, w) = config-Gives o.own t name v in
      read_then (config o.own t name).0 g (config o.own t name).1 w refl
    where
      read_then :
          (a : Answer (QueueConfig F))
          → Gives (IsKnown (links t)) name a
          → (t1 : Tables F) → IsSound t1
          → t1.queues ≡ t.queues
          → IsSound
              (elim a as (λ _. Answer Unit × Tables F) [
                | refused e ↦ (refused e, t1)
                | answered cfg ↦ update_known o name s cfg t1
              ]).1
      read_then (refused e) g t1 w rows = w
      read_then (answered cfg) g t1 w rows = update_known-IsSound o name s cfg t1 sure w (rw rows g)

  -- A row that is rewritten with its settings.
  pub update_row-IsSound :
      (name : String) (f : Row F → Row F) (t : Tables F)
      → ((row : Row F) → (f row).settings ≡ row.settings)
      → IsSound t
      → IsSound (update_row name f t)
  unfolding update_row
  update_row-IsSound name f t same v = elim (Option-cases (lookup name t.queues)) [
    | inl e ↦ rw (update_row, e) v
    | inr (row, e) ↦
        let here : links t name ≡ some (f row).settings =
          ap row_settings e ∙ ap some (sym (same row)) in
        rw (update_row-there name f t row e)
          (with_row-IsSound name (f row) t v (v.linked name (f row).settings here) (inr here))
  ]
