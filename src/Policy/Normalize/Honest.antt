-- ===== src/Policy/Normalize/Honest.antt =====
-- policy/schema.go, `Normalize`: its record of changes.
use rego.Common.{ℤ, String, ◌≡◌, false, none, some, FloatOps, arith}
use rego.Policy.Schema.{EffectivePolicy, RetryPolicy, NormalizationInfo, HedgePolicy, CircuitPolicy}
use rego.Policy.Normalize.Stages.{
  mark_changed, normalize_max_attempts, normalize_initial_backoff, normalize_max_backoff,
  normalize_backoff_multiplier, normalize_jitter, normalize_timeout, normalize_cost,
  normalize_max_hedges, normalize_hedge_delay, normalize_threshold, normalize_cooldown,
  normalize_circuit, normalize_hedge, normalize_backoff, normalize_limits, normalize,
}

-- A check that reports no change has made none.
max_attempts_quiet :
    (n : ℤ) (norm : NormalizationInfo)
    → (normalize_max_attempts n norm).1.changed ≡ false
    → normalize_max_attempts n norm ≡ (n, norm)
unfolding normalize_max_attempts mark_changed
max_attempts_quiet n norm h = ground arith

initial_quiet :
    (d : ℤ) (norm : NormalizationInfo)
    → (normalize_initial_backoff d norm).1.changed ≡ false
    → normalize_initial_backoff d norm ≡ (d, norm)
unfolding normalize_initial_backoff mark_changed
initial_quiet d norm h = ground arith

max_backoff_quiet :
    (i d : ℤ) (norm : NormalizationInfo)
    → (normalize_max_backoff i d norm).1.changed ≡ false
    → normalize_max_backoff i d norm ≡ (d, norm)
unfolding normalize_max_backoff mark_changed
max_backoff_quiet i d norm h = ground arith

timeout_quiet :
    (field : String) (d : ℤ) (norm : NormalizationInfo)
    → (normalize_timeout field d norm).1.changed ≡ false
    → normalize_timeout field d norm ≡ (d, norm)
unfolding normalize_timeout mark_changed
timeout_quiet field d norm h = ground arith

cost_quiet :
    (field : String) (n : ℤ) (norm : NormalizationInfo)
    → (normalize_cost field n norm).1.changed ≡ false
    → normalize_cost field n norm ≡ (n, norm)
unfolding normalize_cost mark_changed
cost_quiet field n norm h = ground arith

max_hedges_quiet :
    (n : ℤ) (norm : NormalizationInfo)
    → (normalize_max_hedges n norm).1.changed ≡ false
    → normalize_max_hedges n norm ≡ (n, norm)
unfolding normalize_max_hedges mark_changed
max_hedges_quiet n norm h = ground arith

delay_quiet :
    (d : ℤ) (norm : NormalizationInfo)
    → (normalize_hedge_delay d norm).1.changed ≡ false
    → normalize_hedge_delay d norm ≡ (d, norm)
unfolding normalize_hedge_delay mark_changed
delay_quiet d norm h = ground arith

threshold_quiet :
    (n : ℤ) (norm : NormalizationInfo)
    → (normalize_threshold n norm).1.changed ≡ false
    → normalize_threshold n norm ≡ (n, norm)
unfolding normalize_threshold mark_changed
threshold_quiet n norm h = ground arith

cooldown_quiet :
    (d : ℤ) (norm : NormalizationInfo)
    → (normalize_cooldown d norm).1.changed ≡ false
    → normalize_cooldown d norm ≡ (d, norm)
unfolding normalize_cooldown mark_changed
cooldown_quiet d norm h = ground arith

jitter_quiet :
    (j : String) (norm : NormalizationInfo) {r : String × NormalizationInfo}
    → normalize_jitter j norm ≡ some r
    → r.1.changed ≡ false
    → r ≡ (j, norm)
unfolding normalize_jitter mark_changed
jitter_quiet j norm e h = ground arith

circuit_quiet :
    (c : CircuitPolicy) (norm : NormalizationInfo)
    → (normalize_circuit c norm).1.changed ≡ false
    → normalize_circuit c norm ≡ (c, norm)
unfolding normalize_circuit
circuit_quiet c norm h = grind (arith, threshold_quiet, cooldown_quiet)

hedge_quiet :
    (h : HedgePolicy) (c : CircuitPolicy) (norm : NormalizationInfo)
    → (normalize_hedge h c norm).2.changed ≡ false
    → normalize_hedge h c norm ≡ (h, c, norm)
unfolding normalize_hedge
hedge_quiet h c norm q = grind (arith, cost_quiet, max_hedges_quiet, delay_quiet, circuit_quiet)

module _ {F : Type 0} ⦃f : FloatOps F⦄ where
  multiplier_quiet :
      (m : F) (norm : NormalizationInfo)
      → (normalize_backoff_multiplier m norm).1.changed ≡ false
      → normalize_backoff_multiplier m norm ≡ (m, norm)
  unfolding normalize_backoff_multiplier mark_changed
  multiplier_quiet m norm h = ground arith

  backoff_quiet :
      (r : RetryPolicy F) (norm : NormalizationInfo)
      → (normalize_backoff r norm).1.changed ≡ false
      → normalize_backoff r norm ≡ (r, norm)
  unfolding normalize_backoff
  backoff_quiet r norm h =
      grind (arith, max_attempts_quiet, initial_quiet, max_backoff_quiet, multiplier_quiet)

  limits_quiet :
      (r : RetryPolicy F) (norm : NormalizationInfo)
      → (normalize_limits r norm).1.changed ≡ false
      → normalize_limits r norm ≡ (r, norm)
  unfolding normalize_limits
  limits_quiet r norm h = grind (arith, timeout_quiet, cost_quiet)

  -- An accepted policy whose record says that nothing was changed is the policy that went in.
  pub changed_honest :
      (p : EffectivePolicy F)
      → (normalize p).1 ≡ none
      → (normalize p).0.meta.normalization.changed ≡ false
      → (normalize p).0 ≡ p
  unfolding normalize
  changed_honest p h q = grind (arith, backoff_quiet, jitter_quiet, limits_quiet, hedge_quiet)
