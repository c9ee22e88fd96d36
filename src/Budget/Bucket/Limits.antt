-- ===== src/Budget/Bucket/Limits.antt =====
-- budget/builtins.go: the range of a token bucket's tokens.
use rego.Common.{
  ◌^◌, ℤ, pos, negsuc, ◌≤ℤ◌, ◌≡◌, inl, inr, true, false, ◌||◌, List, [], ◌∷◌, FloatOps, OrderLaws,
  Bool-cases, Option-cases, saturate, ◌-ℤ◌, ltb_ℤ, if◌then◌else◌, arith,
}
use rego.Policy.Schema.{BudgetRef}
use rego.Budget.Bucket.{
  Bucket, new_token_bucket, added, refill, need, take_tokens, allow_attempt, run_attempts, zero,
  sane, to_seconds,
}

-- At least zero and at most the capacity, by float64's order, in which no NaN is; the capacity and the
-- refill rate are finite, and the rate is not below zero.
pub record IsInRange {F : Type 0} ⦃f : FloatOps F⦄ (b : Bucket F) : Type 0 where
  pub tokens_nonneg : f.le (f.of_int (pos 0)) b.tokens ≡ true
  pub tokens_capped : f.le b.tokens b.capacity ≡ true
  pub capacity_finite : f.is_inf b.capacity ≡ false
  pub rate_nonneg : f.le (f.of_int (pos 0)) b.refill_per_second ≡ true
  pub rate_finite : f.is_inf b.refill_per_second ≡ false

module _ {F : Type 0} ⦃f : FloatOps F⦄ (laws : OrderLaws f) where
  -- What the requests keep: a capacity and a rate.
  abbrev HasCapacity : Bucket F → Type 0
  HasCapacity b =
      (f.le zero b.capacity ≡ true)
      × (f.is_inf b.capacity ≡ false)
      × (f.le zero b.refill_per_second ≡ true)
      × (f.is_inf b.refill_per_second ≡ false)

  -- In the refill only the capacity and the tokens made sane are read.
  abbrev IsRepaired : Bucket F → Type 0
  IsRepaired b = (f.le zero (sane b.tokens) ≡ true) × (f.le (sane b.tokens) b.capacity ≡ true)

  zero_ordered : f.le zero zero ≡ true
  zero_ordered = laws.of_int_ordered 0

  zero_number : f.is_nan zero ≡ false
  zero_number = (laws.le_number zero zero zero_ordered).0

  zero_finite : f.is_inf zero ≡ false
  zero_finite = laws.of_int_bounded 0 (omega arith)

  added_nonneg : (d : ℤ) (b : Bucket F) → f.le zero (added d b) ≡ true
  unfolding added
  added_nonneg d b = ground (
    arith,
    zero_ordered,
    zero_number,
    laws.le_total (f.mul (to_seconds d) b.refill_per_second) zero,
  )

  positive_nonneg : (c : ℤ) → f.le zero (f.of_int (if ltb_ℤ (pos 0) c then c else pos 1)) ≡ true
  positive_nonneg (pos n) = ground (arith, laws.of_int_ordered n, laws.of_int_ordered 1)
  positive_nonneg (negsuc n) = ground (arith, laws.of_int_ordered 1)

  need_nonneg : (ref : BudgetRef) → f.le zero (need ref) ≡ true
  unfolding need
  need_nonneg ref = ground (arith, positive_nonneg ref.cost, laws.of_int_ordered 1)

  refill-IsInRange :
      (now : ℤ) (b : Bucket F) → HasCapacity b → IsRepaired b → IsInRange (refill now b)
  unfolding refill
  refill-IsInRange now b c r =
      let cap_number : f.is_nan b.capacity ≡ false = (laws.le_number zero b.capacity c.0).1 in
      let whole : f.le b.capacity b.capacity ≡ true = laws.le_self b.capacity cap_number in
      elim (Option-cases b.last) [
        | inl e ↦ ground (arith, e, c, whole)
        | inr (last, e) ↦
            let more : F = added (saturate (now -ℤ last)) b in
            let sum : F = f.add (sane b.tokens) more in
            let up : f.le zero sum ≡ true =
              laws.add_up (sane b.tokens) more r.0 (added_nonneg (saturate (now -ℤ last)) b) in
            ground (
              arith,
              e,
              c,
              r,
              whole,
              up,
              laws.le_total b.capacity sum cap_number (laws.le_number zero sum up).1,
            )
      ]

  take_tokens-IsInRange :
      (ref : BudgetRef) (b : Bucket F) → IsInRange b → IsInRange (take_tokens ref b).0
  unfolding take_tokens
  take_tokens-IsInRange ref b v = elim (Bool-cases (f.le (need ref) b.tokens)) [
    | inl e ↦
        let finite : f.is_inf b.tokens ≡ false =
          laws.finite_below b.tokens b.capacity v.tokens_nonneg v.tokens_capped v.capacity_finite in
        let down = laws.sub_down b.tokens (need ref) (need_nonneg ref) e finite in
        rw e (record {
          tokens_nonneg = down.0;
          tokens_capped =
              laws.le_chain (f.sub b.tokens (need ref)) b.tokens b.capacity down.1 v.tokens_capped;
          capacity_finite = v.capacity_finite;
          rate_nonneg = v.rate_nonneg;
          rate_finite = v.rate_finite;
        })
    | inr e ↦ rw e v
  ]

  in_range-IsRepaired : (b : Bucket F) → IsInRange b → HasCapacity b × IsRepaired b
  unfolding sane
  in_range-IsRepaired b v =
      let (t, c) = laws.le_number b.tokens b.capacity v.tokens_capped in
      let up : f.le zero b.capacity ≡ true =
        laws.le_chain zero b.tokens b.capacity v.tokens_nonneg v.tokens_capped in
      let finite : f.is_inf b.tokens ≡ false =
        laws.finite_below b.tokens b.capacity v.tokens_nonneg v.tokens_capped v.capacity_finite in
      ground (arith, v, up, finite, t)

  allow_attempt-IsInRange :
      (now : ℤ) (ref : BudgetRef) (b : Bucket F)
      → HasCapacity b
      → IsRepaired b
      → IsInRange (allow_attempt now ref b).0
  unfolding allow_attempt
  allow_attempt-IsInRange now ref b c r =
      take_tokens-IsInRange ref (refill now b) (refill-IsInRange now b c r)

  run-IsInRange :
      (calls : List (ℤ × BudgetRef)) (b : Bucket F)
      → IsInRange b
      → IsInRange (run_attempts calls b).0
  unfolding run_attempts
  run-IsInRange [] b v = v
  run-IsInRange ((now, ref) ∷ calls) b v =
      let (c, r) = in_range-IsRepaired b v in
      run-IsInRange calls (allow_attempt now ref b).0 (allow_attempt-IsInRange now ref b c r)

  new_token_bucket-IsInRange :
      (c : ℤ) (rate : F) (now : ℤ) → c ≤ℤ pos (2 ^ 63) → IsInRange (new_token_bucket c rate now)
  unfolding new_token_bucket
  new_token_bucket-IsInRange (pos n) rate now h =
      let up : f.le zero (f.of_int (pos n)) ≡ true = laws.of_int_ordered n in
      ground (
        arith,
        up,
        laws.le_self (f.of_int (pos n)) (laws.le_number zero (f.of_int (pos n)) up).1,
        laws.of_int_bounded n (omega (arith, h)),
        zero_ordered,
        zero_number,
        zero_finite,
        laws.le_total rate zero,
      )
  new_token_bucket-IsInRange (negsuc n) rate now h =
      ground (arith, zero_ordered, zero_number, zero_finite, laws.le_total rate zero)

  broken-IsRepaired :
      (b : Bucket F) (t : F)
      → f.is_nan t || f.is_inf t ≡ true
      → HasCapacity b
      → IsRepaired (record b { tokens = t })
  unfolding sane
  broken-IsRepaired b t h c = rw h (zero_ordered, c.0)

  -- However a bucket was built, with a capacity of at most 2^63, and whatever requests it gets at
  -- whatever times, its tokens are at least zero and at most its capacity, so never a NaN, the
  -- capacity and the rate stay finite, and the rate is not below zero. Had its tokens been a NaN or
  -- infinite, the next request would bring it back into that range, for good. The order of float64
  -- on numbers that are not a NaN, and of sums and differences above zero, is a hypothesis.
  pub run-new_token_bucket-IsInRange :
      (calls : List (ℤ × BudgetRef)) (c : ℤ) (rate : F) (now : ℤ) (at : ℤ) (ref : BudgetRef)
      (broken : F)
      → c ≤ℤ pos (2 ^ 63)
      → f.is_nan broken || f.is_inf broken ≡ true
      → let fresh = new_token_bucket c rate now in
        IsInRange (run_attempts calls fresh).0
        × IsInRange (run_attempts ((at, ref) ∷ calls) (record fresh { tokens = broken })).0
  unfolding run_attempts
  run-new_token_bucket-IsInRange calls c rate now at ref broken h n =
      let fresh : Bucket F = new_token_bucket c rate now in
      let v : IsInRange fresh = new_token_bucket-IsInRange c rate now h in
      let sound : HasCapacity fresh = (in_range-IsRepaired fresh v).0 in
      (
        run-IsInRange calls fresh v,
        run-IsInRange calls _ (
            allow_attempt-IsInRange at ref (record fresh { tokens = broken }) sound
              (broken-IsRepaired fresh broken n sound)),
      )
