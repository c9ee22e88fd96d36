-- ===== src/Policy/Normalize/Gaps.antt =====
-- policy/schema.go, `Normalize`: circuits beside disabled hedging, large initial backoffs, NaNs.
use rego.Common.{pos, ◌<ℤ◌, ◌≡◌, true, false, none, FloatOps, FloatLaws, arith}
use rego.Policy.Schema.{EffectivePolicy}
use rego.Policy.Normalize.Stages.{
  max_backoff_ceiling, normalize_initial_backoff, normalize_max_backoff,
  normalize_backoff_multiplier, normalize_hedge, normalize_backoff, normalize_limits, normalize,
}

module _ {F : Type 0} ⦃f : FloatOps F⦄ where
  -- With hedging off, the circuit of an accepted policy is as it was, enabled or not: neither its
  -- threshold nor its cooldown is brought within bounds.
  pub circuit_unchecked :
      (p : EffectivePolicy F)
      → p.hedge.enabled ≡ false
      → (normalize p).1 ≡ none
      → (normalize p).0.circuit ≡ p.circuit
  unfolding normalize normalize_hedge
  circuit_unchecked p h e = ground arith

  -- An initial backoff above 30 s is kept, and lifts the maximum of the accepted policy above the
  -- ceiling of 30 s.
  pub ceiling_exceeded :
      (p : EffectivePolicy F)
      → max_backoff_ceiling <ℤ p.retry.initial_backoff
      → (normalize p).1 ≡ none
      → (max_backoff_ceiling <ℤ (normalize p).0.retry.max_backoff)
        × ((normalize p).0.retry.initial_backoff ≡ p.retry.initial_backoff)
  unfolding normalize normalize_backoff normalize_limits normalize_max_backoff
      normalize_initial_backoff
  ceiling_exceeded p h e = ground arith

  -- A multiplier that is a NaN passes every check of an accepted policy and stays.
  pub nan_kept :
      (laws : FloatLaws f) (p : EffectivePolicy F)
      → f.is_nan p.retry.backoff_multiplier ≡ true
      → (normalize p).1 ≡ none
      → (normalize p).0.retry.backoff_multiplier ≡ p.retry.backoff_multiplier
  unfolding normalize normalize_backoff normalize_limits normalize_backoff_multiplier
  nan_kept laws p n e = ground (
    arith,
    laws.nan-eq p.retry.backoff_multiplier (f.of_int (pos 0)) n,
    laws.nan-lt p.retry.backoff_multiplier (f.of_int (pos 1)) n,
    laws.nan-lt p.retry.backoff_multiplier (f.of_int (pos 10)) n,
  )
