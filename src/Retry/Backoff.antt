-- ===== src/Retry/Backoff.antt =====
-- retry/executor.go: `nextBackoff`, `applyJitter`, `computeSleep` and `capBackoff`. The number that
-- `rand.Float64` draws is an argument.
pub mod Growth
use rego.Common.{
  ℕ, suc, ℤ, pos, ◌≤ℤ◌, ◌<ℤ◌, ltb_ℤ, ◌≡◌, String, str_eq, is_empty, Bool, ◌&&◌, ◌||◌, ◌⊎◌, inl, inr,
  FloatOps, arith, if◌then◌else◌,
}
use rego.Policy.Schema.{RetryPolicy, jitter_none, jitter_full, jitter_equal}
use rego.Classify.{Outcome}

unfoldable pub cap_backoff : ℤ → ℤ → ℤ
cap_backoff d max =
    if ltb_ℤ d (pos 0) then pos 0 else if ltb_ℤ (pos 0) max && ltb_ℤ max d then max else d

module _ {F : Type 0} ⦃f : FloatOps F⦄ where
  unfoldable pub next_backoff : ℤ → F → ℤ → ℤ
  next_backoff current multiplier max =
      let product = f.to_int (f.mul (f.of_int current) multiplier) in
      let next = if ltb_ℤ product (pos 0) then pos 0 else product in
      if ltb_ℤ (pos 0) max && ltb_ℤ max next then max else next

  unfoldable pub apply_jitter : F → ℤ → String → ℤ
  apply_jitter draw backoff kind =
      if str_eq kind jitter_none || is_empty kind
      then backoff
      else if str_eq kind jitter_full
      then f.to_int (f.mul draw (f.of_int backoff))
      else if str_eq kind jitter_equal
      then (let half = f.div (f.of_int backoff) (f.of_int (pos 2)) in
          f.to_int (f.add half (f.mul draw half)))
      else backoff

  unfoldable pub compute_sleep : F → ℤ → RetryPolicy F → Outcome → ℤ
  compute_sleep draw backoff pol out =
      if ltb_ℤ (pos 0) out.backoff_override
      then cap_backoff out.backoff_override pol.max_backoff
      else cap_backoff (apply_jitter draw backoff pol.jitter) pol.max_backoff

  -- The backoff after `n` retries.
  unfoldable pub backoff_after : ℕ → F → ℤ → ℤ → ℤ
  backoff_after ℕ.zero multiplier max initial = initial
  backoff_after (suc n) multiplier max initial =
      next_backoff (backoff_after n multiplier max initial) multiplier max

cap_backoff_bounds :
    (d max : ℤ) → (pos 0 ≤ℤ cap_backoff d max) × ((max ≤ℤ pos 0) ⊎ (cap_backoff d max ≤ℤ max))
unfolding cap_backoff
cap_backoff_bounds d max = ground arith

module _ {F : Type 0} ⦃f : FloatOps F⦄ where
  -- Whatever is drawn, whatever the jitter, and whatever backoff a classifier asks for, the sleep
  -- before a retry is not negative and, where the policy has a maximum, at most that. An override
  -- that is positive and within the maximum is kept exactly.
  pub compute_sleep_bounds :
      (draw : F) (backoff : ℤ) (pol : RetryPolicy F) (out : Outcome)
      → (pos 0 ≤ℤ compute_sleep draw backoff pol out)
        × ((pol.max_backoff ≤ℤ pos 0) ⊎ (compute_sleep draw backoff pol out ≤ℤ pol.max_backoff))
        × ((out.backoff_override ≤ℤ pos 0)
            ⊎ (pol.max_backoff <ℤ out.backoff_override)
            ⊎ (compute_sleep draw backoff pol out ≡ out.backoff_override))
  unfolding compute_sleep cap_backoff
  compute_sleep_bounds draw backoff pol out = ground arith

  -- Whatever the multiplier, and wherever the product lands when it is made an integer again, the
  -- next backoff is not negative and, where there is a maximum, at most that.
  pub next_backoff_bounds :
      (b : ℤ) (m : F) (max : ℤ)
      → (pos 0 ≤ℤ next_backoff b m max) × ((max ≤ℤ pos 0) ⊎ (next_backoff b m max ≤ℤ max))
  unfolding next_backoff
  next_backoff_bounds b m max = ground arith
