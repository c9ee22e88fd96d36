-- ===== src/Policy/Normalize/Bounds.antt =====
-- policy/schema.go, `Normalize`: the bounds of its results, and its error.
use rego.Common.{
  ℤ, pos, ◌≤ℤ◌, String, is_empty, ◌≡◌, refl, ◌⊎◌, inl, inr, true, false, none, some, FloatOps,
  FloatLaws, Option-cases, ◌||◌, if◌then◌else◌, arith,
}
use rego.Errors.{normalize_error}
use rego.Policy.Schema.{
  EffectivePolicy, NormalizationInfo, HedgePolicy, CircuitPolicy, zero_policy, jitter_none,
}
use rego.Policy.Normalize.Stages.{
  max_retry_attempts, max_hedges_limit, min_backoff_floor, min_hedge_delay_floor, min_timeout_floor,
  min_circuit_cooldown, min_circuit_threshold, is_jitter_kind, normalize_max_attempts,
  normalize_initial_backoff, normalize_max_backoff, normalize_backoff_multiplier, normalize_jitter,
  normalize_timeout, normalize_cost, normalize_max_hedges, normalize_hedge_delay,
  normalize_threshold, normalize_cooldown, normalize_circuit, normalize_hedge, normalize_backoff,
  normalize_limits, normalize,
}

abbrev pub IsTimeout : ℤ → Type 0
IsTimeout d = (d ≡ pos 0) ⊎ (min_timeout_floor ≤ℤ d)

-- The hedging part. Its numbers, and the circuit's, are bounded only where hedging is on.
pub record HedgeBounds (h : HedgePolicy) (c : CircuitPolicy) : Type 0 where
  pub cost : pos 1 ≤ℤ h.budget.cost
  pub hedges_low : h.enabled ≡ true → pos 1 ≤ℤ h.max_hedges
  pub hedges_high : h.enabled ≡ true → h.max_hedges ≤ℤ max_hedges_limit
  pub delay_low : h.enabled ≡ true → min_hedge_delay_floor ≤ℤ h.hedge_delay
  pub threshold_low : h.enabled ≡ true → c.enabled ≡ true → min_circuit_threshold ≤ℤ c.threshold
  pub cooldown_low : h.enabled ≡ true → c.enabled ≡ true → min_circuit_cooldown ≤ℤ c.cooldown

-- What holds of the retry envelope and of the rest.
pub record IsNormalized {F : Type 0} ⦃f : FloatOps F⦄ (p : EffectivePolicy F) : Type 0 where
  pub attempts_low : pos 1 ≤ℤ p.retry.max_attempts
  pub attempts_high : p.retry.max_attempts ≤ℤ max_retry_attempts
  pub initial_low : min_backoff_floor ≤ℤ p.retry.initial_backoff
  pub max_low : p.retry.initial_backoff ≤ℤ p.retry.max_backoff
  pub multiplier_nonzero : f.eq p.retry.backoff_multiplier (f.of_int (pos 0)) ≡ false
  pub multiplier_low : f.lt p.retry.backoff_multiplier (f.of_int (pos 1)) ≡ false
  pub multiplier_high : f.lt (f.of_int (pos 10)) p.retry.backoff_multiplier ≡ false
  pub jitter_known : is_jitter_kind p.retry.jitter ≡ true
  pub attempt_timeout : IsTimeout p.retry.timeout_per_attempt
  pub overall_timeout : IsTimeout p.retry.overall_timeout
  pub retry_cost : pos 1 ≤ℤ p.retry.budget.cost
  pub hedging : HedgeBounds p.hedge p.circuit

max_attempts_bounds :
    (n : ℤ) (norm : NormalizationInfo)
    → (pos 1 ≤ℤ (normalize_max_attempts n norm).0)
      × ((normalize_max_attempts n norm).0 ≤ℤ max_retry_attempts)
unfolding normalize_max_attempts
max_attempts_bounds n norm = ground arith

initial_bounds :
    (d : ℤ) (norm : NormalizationInfo) → min_backoff_floor ≤ℤ (normalize_initial_backoff d norm).0
unfolding normalize_initial_backoff
initial_bounds d norm = ground arith

max_backoff_bounds : (i d : ℤ) (norm : NormalizationInfo) → i ≤ℤ (normalize_max_backoff i d norm).0
unfolding normalize_max_backoff
max_backoff_bounds i d norm = ground arith

IsTimeout-bounds :
    (field : String) (d : ℤ) (norm : NormalizationInfo)
    → IsTimeout (normalize_timeout field d norm).0
unfolding normalize_timeout
IsTimeout-bounds field d norm = ground arith

cost_bounds :
    (field : String) (n : ℤ) (norm : NormalizationInfo) → pos 1 ≤ℤ (normalize_cost field n norm).0
unfolding normalize_cost
cost_bounds field n norm = ground arith

max_hedges_bounds :
    (n : ℤ) (norm : NormalizationInfo)
    → (pos 1 ≤ℤ (normalize_max_hedges n norm).0)
      × ((normalize_max_hedges n norm).0 ≤ℤ max_hedges_limit)
unfolding normalize_max_hedges
max_hedges_bounds n norm = ground arith

delay_bounds :
    (d : ℤ) (norm : NormalizationInfo) → min_hedge_delay_floor ≤ℤ (normalize_hedge_delay d norm).0
unfolding normalize_hedge_delay
delay_bounds d norm = ground arith

threshold_bounds :
    (n : ℤ) (norm : NormalizationInfo) → min_circuit_threshold ≤ℤ (normalize_threshold n norm).0
unfolding normalize_threshold
threshold_bounds n norm = ground arith

cooldown_bounds :
    (d : ℤ) (norm : NormalizationInfo) → min_circuit_cooldown ≤ℤ (normalize_cooldown d norm).0
unfolding normalize_cooldown
cooldown_bounds d norm = ground arith

none_IsKind : is_jitter_kind jitter_none ≡ true
unfolding is_jitter_kind
none_IsKind = refl

jitter_bounds :
    (j : String) (norm : NormalizationInfo) {r : String × NormalizationInfo}
    → normalize_jitter j norm ≡ some r
    → is_jitter_kind r.0 ≡ true
unfolding normalize_jitter
jitter_bounds j norm h = ground (arith, none_IsKind)

hedge_bounds :
    (h : HedgePolicy) (c : CircuitPolicy) (norm : NormalizationInfo)
    → let r = normalize_hedge h c norm in HedgeBounds r.0 r.1
unfolding normalize_hedge normalize_circuit
hedge_bounds h c norm =
    grind (arith, cost_bounds, max_hedges_bounds, delay_bounds, threshold_bounds, cooldown_bounds)

module _ {F : Type 0} ⦃f : FloatOps F⦄ (laws : FloatLaws f) where
  multiplier_bounds :
      (m : F) (norm : NormalizationInfo)
      → (f.eq (normalize_backoff_multiplier m norm).0 (f.of_int (pos 0)) ≡ false)
        × (f.lt (normalize_backoff_multiplier m norm).0 (f.of_int (pos 1)) ≡ false)
        × (f.lt (f.of_int (pos 10)) (normalize_backoff_multiplier m norm).0 ≡ false)
  unfolding normalize_backoff_multiplier
  multiplier_bounds m norm = ground (
    arith,
    laws.eq-of_int (pos 1) (pos 0),
    laws.eq-of_int (pos 2) (pos 0),
    laws.eq-of_int (pos 10) (pos 0),
    laws.lt-of_int (pos 1) (pos 1),
    laws.lt-of_int (pos 2) (pos 1),
    laws.lt-of_int (pos 10) (pos 1),
    laws.lt-of_int (pos 10) (pos 1),
    laws.lt-of_int (pos 10) (pos 2),
    laws.lt-of_int (pos 10) (pos 10),
  )

  accepted-IsNormalized :
      (p : EffectivePolicy F) (j : String × NormalizationInfo)
      → normalize_jitter p.retry.jitter (normalize_backoff p.retry p.meta.normalization).1 ≡ some j
      → IsNormalized (normalize p).0
  unfolding normalize normalize_backoff normalize_limits
  accepted-IsNormalized p j e =
      rw (e, normalize)
        (record {
          attempts_low = (max_attempts_bounds _ _).0;
          attempts_high = (max_attempts_bounds _ _).1;
          initial_low = initial_bounds _ _;
          max_low = max_backoff_bounds _ _ _;
          multiplier_nonzero = (multiplier_bounds _ _).0;
          multiplier_low = (multiplier_bounds _ _).1;
          multiplier_high = (multiplier_bounds _ _).2;
          jitter_known = jitter_bounds _ _ e;
          attempt_timeout = IsTimeout-bounds _ _ _;
          overall_timeout = IsTimeout-bounds _ _ _;
          retry_cost = cost_bounds _ _ _;
          hedging = hedge_bounds _ _ _;
        })

  -- A policy that `Normalize` accepts is within its bounds: 1 to 10 attempts, backoff from 1 ms up
  -- with the maximum no less than the initial, a multiplier that is neither 0 nor below 1 nor above
  -- 10, a known jitter, timeouts that are off or at least 1 ms, costs of at least 1, and, where
  -- hedging is on, its bounds and those of an enabled circuit.
  pub normalize-IsNormalized :
      (p : EffectivePolicy F) → (normalize p).1 ≡ none → IsNormalized (normalize p).0
  unfolding normalize
  normalize-IsNormalized p h =
      elim (Option-cases (
        normalize_jitter (normalize_backoff p.retry p.meta.normalization).0.jitter
          (normalize_backoff p.retry p.meta.normalization).1)) [
            | inl e ↦ absurd (ground (arith, h, e))
            | inr (j, e) ↦ accepted-IsNormalized p j (unfold normalize_backoff in e)
          ]

module _ {F : Type 0} ⦃f : FloatOps F⦄ where
  -- `Normalize` fails exactly on a jitter that is neither empty nor known. The error names the
  -- field and the value, and the policy that comes with it is the zero policy.
  pub normalize_error_lem :
      (p : EffectivePolicy F)
      → ((normalize p).1 ≡ (
          if is_empty p.retry.jitter || is_jitter_kind p.retry.jitter
          then none
          else some (normalize_error "retry.jitter" p.retry.jitter)))
        × (((normalize p).1 ≡ none) ⊎ ((normalize p).0 ≡ zero_policy))
  unfolding normalize normalize_backoff normalize_jitter
  normalize_error_lem p = ground arith
