-- ===== src/Engine/Config.antt =====
-- backend/queue/logic/engine/queue.go: the settings of a queue and their defaults. Durations are
-- signed nanoseconds. StarvationReserve is a float64, which is a parameter of the model: the type,
-- the tests on it, the default 0.2 and `uint64(1.0 / x)`.
use ryuk_dpq.Base.{
  ℕ, ◌*◌, ◌/◌, ◌%◌, ◌≡◌, refl, sym, ap, ◌∙◌, Bool, true, false, not, ◌&&◌, ◌||◌, arith, ◌==◌,
  if◌then◌else◌, if_cases,
}
use ryuk_dpq.Base.Int.{ℤ, pos, negsuc, is_positive}
use ryuk_dpq.Engine.Message.{QueueKey}

pub record Floats : Type 1 where
  pub F : Type 0
  pub not_positive : F → Bool
  pub above_one : F → Bool
  pub one_fifth : F
  pub recip : F → ℕ
  pub same : F → F → Bool
  pub fifth_positive : not_positive one_fifth ≡ false
  pub fifth_at_most_one : above_one one_fifth ≡ false

pub record Config (F : Type 0) : Type 0 where
  pub key : QueueKey
  pub visibility_timeout : ℤ
  pub max_retries : ℕ
  pub max_retries_set : Bool
  pub default_ttl : ℤ
  pub starvation_threshold : ℤ
  pub starvation_reserve : F
  pub starvation_avoidance_enabled : Bool
  pub max_depth : ℤ
  pub distributed : Bool
  pub has_dead_letter : Bool

abbrev pub second : ℕ
second = 1_000_000_000

-- `c.DefaultTTL / 4` for a positive TTL.
quarter : ℤ → ℤ
quarter (pos n) = pos (n / 4)
quarter (negsuc n) = pos 0

module _ (fl : Floats) where
  open fl use {F, not_positive, above_one, one_fifth, recip}

  default_visibility : Config F → Config F
  default_visibility c =
      if not (is_positive c.visibility_timeout)
      then record c { visibility_timeout = pos (30 * second) }
      else c

  default_retries : Config F → Config F
  default_retries c =
      if not c.max_retries_set && c.max_retries == 0 then record c { max_retries = 3 } else c

  default_reserve : Config F → Config F
  default_reserve c =
      if not_positive c.starvation_reserve || above_one c.starvation_reserve
      then record c { starvation_reserve = one_fifth }
      else c

  default_threshold : Config F → Config F
  unfolding quarter
  default_threshold c =
      if not (is_positive c.starvation_threshold)
      then record c {
        starvation_threshold =
            if is_positive c.default_ttl then quarter c.default_ttl else pos (60 * second);
      }
      else c

  unfoldable pub apply_defaults : Config F → Config F
  unfolding default_visibility default_retries default_reserve default_threshold
  apply_defaults c = default_threshold (default_reserve (default_retries (default_visibility c)))

  -- Whether the delivery numbered `n` belongs to the share kept for starved work.
  unfoldable pub reserve_tick : Config F → ℕ → Bool
  reserve_tick c n =
      let every = recip c.starvation_reserve in
      if not c.starvation_avoidance_enabled || not_positive c.starvation_reserve
      then false
      else if every == 0
      then true
      else n % every == 0

  -- What the code relies on after the defaults.
  pub record IsUsable (c : Config F) : Type 0 where
    pub visible : is_positive c.visibility_timeout ≡ true
    pub retries : (c.max_retries_set ≡ false) → (c.max_retries == 0) ≡ false
    pub reserve : not_positive c.starvation_reserve ≡ false
    pub share : above_one c.starvation_reserve ≡ false

  -- What the later defaults leave alone.
  threshold_keeps :
      (c : Config F)
      → ((default_threshold c).visibility_timeout ≡ c.visibility_timeout)
        × ((default_threshold c).max_retries ≡ c.max_retries)
        × ((default_threshold c).max_retries_set ≡ c.max_retries_set)
        × ((default_threshold c).starvation_reserve ≡ c.starvation_reserve)
  unfolding default_threshold
  threshold_keeps c =
      if_cases
        (λ (d : Config F).
          (d.visibility_timeout ≡ c.visibility_timeout)
          × (d.max_retries ≡ c.max_retries)
          × (d.max_retries_set ≡ c.max_retries_set)
          × (d.starvation_reserve ≡ c.starvation_reserve))
        (not (is_positive c.starvation_threshold)) (λ _. (refl, refl, refl, refl))
        (λ _. (refl, refl, refl, refl))

  reserve_keeps :
      (c : Config F)
      → ((default_reserve c).visibility_timeout ≡ c.visibility_timeout)
        × ((default_reserve c).max_retries ≡ c.max_retries)
        × ((default_reserve c).max_retries_set ≡ c.max_retries_set)
  unfolding default_reserve
  reserve_keeps c =
      if_cases
        (λ (d : Config F).
          (d.visibility_timeout ≡ c.visibility_timeout)
          × (d.max_retries ≡ c.max_retries)
          × (d.max_retries_set ≡ c.max_retries_set))
        (not_positive c.starvation_reserve || above_one c.starvation_reserve)
        (λ _. (refl, refl, refl)) (λ _. (refl, refl, refl))

  retries_keeps : (c : Config F) → (default_retries c).visibility_timeout ≡ c.visibility_timeout
  unfolding default_retries
  retries_keeps c =
      if_cases (λ (d : Config F). d.visibility_timeout ≡ c.visibility_timeout)
        (not c.max_retries_set && c.max_retries == 0) (λ _. refl) (λ _. refl)

  visibility_set : (c : Config F) → is_positive (default_visibility c).visibility_timeout ≡ true
  unfolding default_visibility
  visibility_set c =
      if_cases (λ (d : Config F). is_positive d.visibility_timeout ≡ true)
        (not (is_positive c.visibility_timeout)) (λ _. refl) (λ e. ground arith)

  retries_set :
      (c : Config F)
      → (default_retries c).max_retries_set ≡ false
      → ((default_retries c).max_retries == 0) ≡ false
  unfolding default_retries
  retries_set c =
      if_cases (λ (d : Config F). d.max_retries_set ≡ false → (d.max_retries == 0) ≡ false)
        (not c.max_retries_set && c.max_retries == 0) (λ _ _. refl) (λ e h. ground arith)

  reserve_set :
      (c : Config F)
      → (not_positive (default_reserve c).starvation_reserve ≡ false)
        × (above_one (default_reserve c).starvation_reserve ≡ false)
  unfolding default_reserve
  reserve_set c =
      if_cases
        (λ (d : Config F).
          (not_positive d.starvation_reserve ≡ false) × (above_one d.starvation_reserve ≡ false))
        (not_positive c.starvation_reserve || above_one c.starvation_reserve)
        (λ _. (fl.fifth_positive, fl.fifth_at_most_one)) (λ e. neither _ _ e)
    where
      neither : (a b : Bool) → (a || b) ≡ false → (a ≡ false) × (b ≡ false)
      neither a b e = ground arith

  -- Whatever was set, the defaults leave a lease a positive time, an unset retry limit positive and
  -- the reserve a share between 0 and 1.
  pub apply_defaults-IsUsable : (c : Config F) → IsUsable (apply_defaults c)
  unfolding apply_defaults
  apply_defaults-IsUsable c =
      let c1 = default_visibility c in
      let c2 = default_retries c1 in
      let c3 = default_reserve c2 in
      let k4 = threshold_keeps c3 in
      let k3 = reserve_keeps c2 in
      record {
        visible = ap is_positive (k4.0 ∙ k3.0 ∙ retries_keeps c1) ∙ visibility_set c;
        retries = λ h. ap (λ n. n == 0) (k4.1 ∙ k3.1) ∙ retries_set c1 (sym (k4.2 ∙ k3.2) ∙ h);
        reserve = ap not_positive k4.3 ∙ (reserve_set c2).0;
        share = ap above_one k4.3 ∙ (reserve_set c2).1;
      }
