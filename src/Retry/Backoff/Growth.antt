-- ===== src/Retry/Backoff/Growth.antt =====
-- retry/executor.go: the backoff over several retries.
use Prim.Native.Nat.{min}
use native.Mathlib.Decide.{dec_le}
use native.Mathlib.Nat.{pow-zero, mul-one, pow-suc, mul_assoc, mul-le-mul_right}
use rego.Common.{ℕ, zero, suc, ◌*◌, ◌^◌, ◌≤◌, pos, ◌≡◌, sym, ap, ◌∙◌, FloatOps, FloatLaws, arith}
use rego.Retry.Backoff.{next_backoff, backoff_after}

mul_grow : (x m : ℕ) → 1 ≤ m → x ≤ x * m
mul_grow x m h = grind arith

-- The cut at each step comes to the same as one cut at the end.
step_min : (x m top : ℕ) → 1 ≤ m → min (min x top * m) top ≡ min (x * m) top
step_min x m top h = elim (dec_le x top) [
  | yes l ↦ let e : min x top ≡ x = omega arith in rw e
  | no g ↦
      let e : min x top ≡ top = omega arith in
      rw e (omega (arith, mul_grow top m h, mul-le-mul_right {m = top} {n = x} m (omega arith)))
]

module _ {F : Type 0} ⦃f : FloatOps F⦄ (laws : FloatLaws f) where
  next_exact :
      (b m top : ℕ)
      → 1 ≤ top
      → b * m ≤ 2 ^ 53
      → next_backoff (pos b) (f.of_int (pos m)) (pos top) ≡ pos (min (b * m) top)
  unfolding next_backoff
  next_exact b m top c h =
      ground (arith, laws.mul-of_int b m h, laws.to_int-of_int (pos (b * m)) (omega (arith, h)))

  -- With a whole multiplier the backoff after `n` retries is the initial one times the multiplier
  -- to the power `n`, cut at the maximum. The initial backoff is at most the maximum, and the
  -- maximum times the multiplier is held exactly by float64, as it is under the ceilings of
  -- `Normalize`.
  pub backoff_after_lem :
      (n i m top : ℕ)
      → 1 ≤ i
      → i ≤ top
      → 1 ≤ m
      → top * m ≤ 2 ^ 53
      → backoff_after n (f.of_int (pos m)) (pos top) (pos i) ≡ pos (min (i * m ^ n) top)
  unfolding backoff_after
  backoff_after_lem zero i m top h l k e = ap pos (rw (pow-zero m, mul-one i) (omega arith))
  backoff_after_lem (suc n) i m top h l k e =
      let so_far = min (i * m ^ n) top in
      let exact : so_far * m ≤ 2 ^ 53 =
        omega (arith, mul-le-mul_right {m = so_far} {n = top} m (omega arith)) in
      ap (λ b. next_backoff b (f.of_int (pos m)) (pos top)) (backoff_after_lem n i m top h l k e)
      ∙ next_exact so_far m top (omega arith) exact
      ∙ ap pos (
          step_min (i * m ^ n) m top k
          ∙ ap (λ p. min p top) (mul_assoc i (m ^ n) m ∙ ap (λ t. i * t) (sym (pow-suc m n))))
