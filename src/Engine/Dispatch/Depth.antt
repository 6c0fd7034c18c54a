-- ===== src/Engine/Dispatch/Depth.antt =====
-- Dequeue and the depth that EnqueueToSlot tests against the cap.
use ryuk_dpq.Base.{
  ℕ, zero, suc, ◌+◌, ◌-◌, ◌%◌, ◌≡◌, refl, ◌∙◌, none, some, Option-cases, inl, inr, if_cases, length,
  get_elem?, leb,
}
use ryuk_dpq.Engine.Message.{add64}
use ryuk_dpq.Engine.Deliver.{take}
use ryuk_dpq.Engine.Config.{Floats, reserve_tick}
use ryuk_dpq.Engine.Queue.{Queue, write_slot}
use ryuk_dpq.Engine.Dispatch.{
  Delivered, best_band, best_slot, oldest_band_before, max_dispatch_retries, after_take,
  take_urgent, scan_starved, take_starved, journaled, escaped, dequeue,
}

module _ {F : Type 0} where
  take_urgent-depth : (f : ℕ) (q : Queue F) (now : ℕ) → (take_urgent f q now).1.depth ≡ q.depth
  unfolding take_urgent write_slot
  take_urgent-depth zero q now = refl
  take_urgent-depth (suc f) q now = elim (Option-cases (best_slot q.slots none)) [
    | inl e ↦ rw (e, take_urgent) refl
    | inr (s, e) ↦ elim (Option-cases (take s (s.hint - 1) now q.conf.visibility_timeout).0) [
      | inl n ↦ rw (e, take_urgent, n) (take_urgent-depth f _ now)
      | inr (out, n) ↦ rw (e, take_urgent, n) refl
    ]
  ]

  scan_starved-depth :
      (n i start top cutoff : ℕ) (q : Queue F) (now : ℕ)
      → (scan_starved n i start top cutoff q now).1.depth ≡ q.depth
  unfolding scan_starved write_slot
  scan_starved-depth zero i start top cutoff q now = refl
  scan_starved-depth (suc n) i start top cutoff q now =
      let passed : (u : Queue F)
          → (scan_starved n (i + 1) start top cutoff u now).1.depth ≡ u.depth =
        λ u. scan_starved-depth n (i + 1) start top cutoff u now in
      elim (Option-cases (get_elem? q.slots ((start + i) % length q.slots))) [
        | inl e ↦ rw (scan_starved, e) refl
        | inr (s, e) ↦ elim (Option-cases (oldest_band_before s cutoff)) [
          | inl b ↦
              rw (scan_starved, e, b) (if_cases Keeps s.frozen (λ _. passed q) (λ _. passed q))
          | inr (p, b) ↦ elim (Option-cases (take s p now q.conf.visibility_timeout).0) [
            | inl t ↦
                rw (scan_starved, e, b, t)
                  (if_cases Keeps s.frozen (λ _. passed q)
                    (λ _.
                      if_cases Keeps (leb top p) (λ _. passed q)
                        (λ _. passed (write_slot q (take s p now q.conf.visibility_timeout).1))))
            | inr (out, t) ↦
                rw (scan_starved, e, b, t)
                  (if_cases Keeps s.frozen (λ _. passed q)
                    (λ _. if_cases Keeps (leb top p) (λ _. passed q) (λ _. refl)))
          ]
        ]
      ]
    where
      Keeps : Delivered F → Type 0
      Keeps r = r.1.depth ≡ q.depth

  take_starved-depth : (q : Queue F) (now : ℕ) → (take_starved q now).1.depth ≡ q.depth
  unfolding take_starved
  take_starved-depth q now = elim (Option-cases (best_band q.slots none)) [
    | inl e ↦ rw (take_starved, e) refl
    | inr (top, e) ↦ rw (take_starved, e) (scan_starved-depth _ _ _ _ _ _ now)
  ]

journaled-depth : (fl : Floats) (r : Delivered fl.F) → (journaled fl r).1.depth ≡ r.1.depth
unfolding journaled after_take
journaled-depth fl (none, q) = refl
journaled-depth fl (some (m, r), q) = refl

escaped-depth :
    (fl : Floats) (r : Delivered fl.F) (now : ℕ) → (escaped fl r now).1.depth ≡ r.1.depth
unfolding escaped
escaped-depth fl (none, q) now =
    journaled-depth fl (take_urgent max_dispatch_retries q now)
    ∙ take_urgent-depth max_dispatch_retries q now
escaped-depth fl (some out, q) now =
    journaled-depth fl (some out, record q { escapes = add64 q.escapes 1 })

-- Dequeue leaves the depth as it was, whatever it finds: also where it drops expired messages, which
-- no sweep counts then.
pub dequeue-depth : (fl : Floats) (q : Queue fl.F) (now : ℕ) → (dequeue fl q now).1.depth ≡ q.depth
unfolding dequeue
dequeue-depth fl q now =
    let n = add64 q.dispatched 1 in
    let q1 = record q { dispatched = n } in
    if_cases (λ (r : Delivered fl.F). r.1.depth ≡ q.depth) q.frozen (λ _. refl)
      (λ _.
        if_cases (λ (r : Delivered fl.F). r.1.depth ≡ q.depth) (reserve_tick fl q.conf n)
          (λ _. escaped-depth fl (take_starved q1 now) now ∙ take_starved-depth q1 now)
          (λ _.
            journaled-depth fl (take_urgent max_dispatch_retries q1 now)
            ∙ take_urgent-depth max_dispatch_retries q1 now))
