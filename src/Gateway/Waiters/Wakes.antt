-- ===== src/Gateway/Waiters/Wakes.antt =====
-- No wake is lost while a consumer of the key has none: over many wakes, and when a consumer leaves.
use ryuk_dpq.Base.{ℕ, zero, suc, ◌+◌, ◌≤◌, ◌≡◌, refl, ap, String, List, [], ◌∷◌, map, arith, length}
use ryuk_dpq.Gateway.Waiters.{Waiter, Waiters, waiting, wake}
use ryuk_dpq.Gateway.Waiters.Delivery.{wakes, AreFull, Delivers, dropped, handed, wake-Delivers}

abbrev pub wake_times : ℕ → Waiters → String → Waiters
wake_times zero w k = w
wake_times (suc n) w k = wake_times n (wake w k) k

wakes-le-length : (list : List Waiter) → wakes list ≤ length list
wakes-le-length [] = omega arith
wakes-le-length (c ∷ cs) = ground (arith, wakes-le-length cs)

AreFull-of_wakes : (list : List Waiter) → length list ≤ wakes list → AreFull list
AreFull-of_wakes [] h = tt
AreFull-of_wakes (c ∷ cs) h = ground (arith, wakes-le-length cs, AreFull-of_wakes cs)

AreFull-wakes : (list : List Waiter) → AreFull list → wakes list ≡ length list
AreFull-wakes [] a = refl
AreFull-wakes (c ∷ cs) (f, a) = ground (arith, AreFull-wakes cs a)

length-channels : (list : List Waiter) → length (map (λ c. c.ch) list) ≡ length list
length-channels [] = refl
length-channels (c ∷ cs) = ap suc (length-channels cs)

enough_wakes :
    (n : ℕ) (w : Waiters) (k : String)
    → length (waiting w k) ≤ wakes (waiting w k) + n
    → AreFull (waiting (wake_times n w k) k)
enough_wakes zero w k h = AreFull-of_wakes (waiting w k) (omega arith)
enough_wakes (suc n) w k h = enough_wakes n (wake w k) k (fewer (wake w k) (wake-Delivers w k))
  where
    fewer : (u : Waiters) → Delivers w k u → length (waiting u k) ≤ wakes (waiting u k) + n
    fewer u (dropped a e) =
        let full : wakes (waiting u k) ≡ length (waiting u k) =
          rw e (AreFull-wakes (waiting w k) a) in
        omega arith
    fewer u (handed p q r) =
        omega (arith, ap length q, length-channels (waiting u k), length-channels (waiting w k))

-- As many wakes as there are consumers parked on a key leave none of them without one.
pub wakes_reach_all :
    (w : Waiters) (k : String) → AreFull (waiting (wake_times (length (waiting w k)) w k) k)
wakes_reach_all w k = enough_wakes (length (waiting w k)) w k (omega arith)
