-- ===== src/Policy/Normalize/Idempotent.antt =====
-- policy/schema.go, `Normalize` on its own results.
use rego.Common.{ℤ, pos, ◌≤ℤ◌, String, ◌≡◌, true, false, none, some, FloatOps, FloatLaws, arith}
use rego.Policy.Schema.{EffectivePolicy, RetryPolicy, NormalizationInfo, HedgePolicy, CircuitPolicy}
use rego.Policy.Normalize.Bounds.{IsNormalized, HedgeBounds, IsTimeout, normalize-IsNormalized}
use rego.Policy.Normalize.Stages.{
  max_retry_attempts, min_backoff_floor, is_jitter_kind, normalize_max_attempts,
  normalize_initial_backoff, normalize_max_backoff, normalize_backoff_multiplier, normalize_jitter,
  normalize_timeout, normalize_cost, normalize_max_hedges, normalize_hedge_delay,
  max_backoff_ceiling, normalize_threshold, normalize_cooldown, normalize_circuit, normalize_hedge,
  normalize_backoff, normalize_limits, normalize,
}

-- Within its bounds a check does nothing.
max_attempts_fixed :
    (n : ℤ) (norm : NormalizationInfo)
    → pos 1 ≤ℤ n
    → n ≤ℤ max_retry_attempts
    → normalize_max_attempts n norm ≡ (n, norm)
unfolding normalize_max_attempts
max_attempts_fixed n norm l h = ground arith

initial_fixed :
    (d : ℤ) (norm : NormalizationInfo)
    → min_backoff_floor ≤ℤ d
    → normalize_initial_backoff d norm ≡ (d, norm)
unfolding normalize_initial_backoff
initial_fixed d norm l = ground arith

max_backoff_fixed :
    (i d : ℤ) (norm : NormalizationInfo)
    → min_backoff_floor ≤ℤ i
    → i ≤ℤ d
    → d ≤ℤ max_backoff_ceiling
    → normalize_max_backoff i d norm ≡ (d, norm)
unfolding normalize_max_backoff
max_backoff_fixed i d norm l m h = ground arith

timeout_fixed :
    (field : String) (d : ℤ) (norm : NormalizationInfo)
    → IsTimeout d
    → normalize_timeout field d norm ≡ (d, norm)
unfolding normalize_timeout
timeout_fixed field d norm h = ground arith

cost_fixed :
    (field : String) (n : ℤ) (norm : NormalizationInfo)
    → pos 1 ≤ℤ n
    → normalize_cost field n norm ≡ (n, norm)
unfolding normalize_cost
cost_fixed field n norm h = ground arith

jitter_fixed :
    (j : String) (norm : NormalizationInfo)
    → is_jitter_kind j ≡ true
    → normalize_jitter j norm ≡ some (j, norm)
unfolding normalize_jitter is_jitter_kind
jitter_fixed String.[] norm h = cc
jitter_fixed (String.◌∷◌ c s) norm h = rw h

hedge_fixed :
    (h : HedgePolicy) (c : CircuitPolicy) (norm : NormalizationInfo)
    → HedgeBounds h c
    → normalize_hedge h c norm ≡ (h, c, norm)
unfolding normalize_hedge normalize_circuit normalize_cost normalize_max_hedges
    normalize_hedge_delay normalize_threshold normalize_cooldown
hedge_fixed h c norm b = ground arith

module _ {F : Type 0} ⦃f : FloatOps F⦄ where
  multiplier_fixed :
      (m : F) (norm : NormalizationInfo)
      → f.eq m (f.of_int (pos 0)) ≡ false
      → f.lt m (f.of_int (pos 1)) ≡ false
      → f.lt (f.of_int (pos 10)) m ≡ false
      → normalize_backoff_multiplier m norm ≡ (m, norm)
  unfolding normalize_backoff_multiplier
  multiplier_fixed m norm z l h = ground arith

  backoff_fixed :
      (r : RetryPolicy F) (norm : NormalizationInfo)
      → pos 1 ≤ℤ r.max_attempts
      → r.max_attempts ≤ℤ max_retry_attempts
      → min_backoff_floor ≤ℤ r.initial_backoff
      → r.initial_backoff ≤ℤ r.max_backoff
      → r.max_backoff ≤ℤ max_backoff_ceiling
      → f.eq r.backoff_multiplier (f.of_int (pos 0)) ≡ false
      → f.lt r.backoff_multiplier (f.of_int (pos 1)) ≡ false
      → f.lt (f.of_int (pos 10)) r.backoff_multiplier ≡ false
      → normalize_backoff r norm ≡ (r, norm)
  unfolding normalize_backoff
  backoff_fixed r norm h₁ h₂ h₃ h₄ h₅ h₆ h₇ h₈ = ground (
    arith,
    max_attempts_fixed r.max_attempts norm,
    initial_fixed r.initial_backoff norm,
    max_backoff_fixed r.initial_backoff r.max_backoff norm,
    multiplier_fixed r.backoff_multiplier norm,
  )

  limits_fixed :
      (r : RetryPolicy F) (norm : NormalizationInfo)
      → IsTimeout r.timeout_per_attempt
      → IsTimeout r.overall_timeout
      → pos 1 ≤ℤ r.budget.cost
      → normalize_limits r norm ≡ (r, norm)
  unfolding normalize_limits
  limits_fixed r norm t o c = ground (
    arith,
    timeout_fixed "retry.timeout_per_attempt" r.timeout_per_attempt norm,
    timeout_fixed "retry.overall_timeout" r.overall_timeout norm,
    cost_fixed "retry.budget.cost" r.budget.cost norm,
  )

  pub fixed :
      (p : EffectivePolicy F)
      → IsNormalized p
      → p.retry.max_backoff ≤ℤ max_backoff_ceiling
      → normalize p ≡ (p, none)
  unfolding normalize
  fixed p v c =
      let norm = p.meta.normalization in
      ground (
        arith,
        backoff_fixed p.retry norm v.attempts_low v.attempts_high v.initial_low v.max_low c
            v.multiplier_nonzero v.multiplier_low v.multiplier_high,
        jitter_fixed p.retry.jitter norm v.jitter_known,
        limits_fixed p.retry norm v.attempt_timeout v.overall_timeout v.retry_cost,
        hedge_fixed p.hedge p.circuit norm v.hedging,
      )

  max_backoff_capped :
      (p : EffectivePolicy F)
      → p.retry.initial_backoff ≤ℤ max_backoff_ceiling
      → (normalize p).1 ≡ none
      → (normalize p).0.retry.max_backoff ≤ℤ max_backoff_ceiling
  unfolding normalize normalize_backoff normalize_limits normalize_max_backoff
      normalize_initial_backoff
  max_backoff_capped p h e = ground arith

  -- Normalising an accepted policy a second time changes nothing, its record of changes included,
  -- if the initial backoff it came with is at most 30 s.
  pub normalize_idem :
      (laws : FloatLaws f) (p : EffectivePolicy F)
      → p.retry.initial_backoff ≤ℤ max_backoff_ceiling
      → (normalize p).1 ≡ none
      → normalize (normalize p).0 ≡ ((normalize p).0, none)
  normalize_idem laws p i h =
      fixed (normalize p).0 (normalize-IsNormalized laws p h) (max_backoff_capped p i h)
