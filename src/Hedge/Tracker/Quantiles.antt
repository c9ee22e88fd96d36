-- ===== src/Hedge/Tracker/Quantiles.antt =====
-- hedge/tracker.go, `Snapshot`: the quantiles are samples, and they are in order.
use rego.Common.{
  ℕ, ◌*◌, ◌^◌, ◌-◌, ◌<◌, ◌≤◌, ℤ, pos, negsuc, ◌≤ℤ◌, ◌≡◌, sym, ap, subst, ◌∙◌, true, List, ◌∷◌,
  length, All, FloatOps, FloatLaws, RatioLaws, arith,
}
use rego.Hedge.Tracker.{
  RingBufferTracker, new_tracker, observe_all, valid_samples, sort, at, clamp, quantile, snapshot,
  LatencySnapshot,
}
use rego.Hedge.Tracker.Laws.{IsInBounds, observe_all-IsInBounds, new_tracker-IsInBounds}
use rego.Hedge.Tracker.Sorting.{IsSorted, All-sort, All-at, length-sort, sort-IsSorted, at-mono}
use rego.Hedge.Tracker.Samples.{
  observe_all-IsFilled, valid_samples-IsFilled, new_tracker-IsFilled, count, length-valid_samples,
  count-observe_all, length-observe_all, length-new_tracker,
}

clamp-lt : (i : ℤ) (n : ℕ) → 1 ≤ n → clamp i n < n
unfolding clamp
clamp-lt (pos i) n h = ground (arith, h)
clamp-lt (negsuc i) n h = ground (arith, h)

clamp_mono : (i j : ℤ) (n : ℕ) → i ≤ℤ j → clamp i n ≤ clamp j n
unfolding clamp
clamp_mono (pos i) (pos j) n h = ground (arith, h)
clamp_mono (pos i) (negsuc j) n h = absurd (omega (arith, h))
clamp_mono (negsuc i) j n h = omega arith

-- Each of the four satisfies `P`, and they are in order.
abbrev pub IsSummary : (ℤ → Type 0) → LatencySnapshot → Type 0
IsSummary P s =
    (P s.p50 × P s.p90 × P s.p95 × P s.p99) × (s.p50 ≤ℤ s.p90) × (s.p90 ≤ℤ s.p95) × (s.p95 ≤ℤ s.p99)

module _ {F : Type 0} ⦃f : FloatOps F⦄ (fl : FloatLaws f) (rl : RatioLaws f) where
  abbrev ratio : ℕ → F
  ratio n = f.div (f.of_int (pos n)) (f.of_int (pos 100))

  -- The index of a percentage, before it is brought into range.
  abbrev index : ℕ → ℕ → ℤ
  index len n = f.to_int (f.mul (f.of_int (pos (len - 1))) (ratio n))

  ratio-nonneg : (n : ℕ) → n ≤ 100 → f.le (f.of_int (pos 0)) (ratio n) ≡ true
  ratio-nonneg n h =
      subst (λ x. f.le x (ratio n) ≡ true) (rl.div_exact 0 100 (omega arith) (omega arith))
        (rl.div_mono 0 n 100 (omega arith) (omega (arith, h)) (omega arith) (omega arith))

  ratio-le_one : (n : ℕ) → n ≤ 100 → f.le (ratio n) (f.of_int (pos 1)) ≡ true
  ratio-le_one n h =
      subst (λ x. f.le (ratio n) x ≡ true) (rl.div_exact 1 100 (omega arith) (omega arith))
        (rl.div_mono n 100 100 h (omega arith) (omega arith) (omega arith))

  le_exact : (a b : ℕ) → a ≤ b → b ≤ 2 ^ 53 → f.le (f.of_int (pos a)) (f.of_int (pos b)) ≡ true
  le_exact a b h k =
      fl.le-of_int (pos a) (pos b) (omega (arith, h, k)) (omega (arith, k)) ∙ ground (arith, h)

  times :
      (len a : ℕ)
      → len * a ≤ 2 ^ 53
      → (c : ℕ) → c ≡ len * a
      → f.mul (f.of_int (pos len)) (f.of_int (pos a)) ≡ f.of_int (pos c)
  times len a h c e = fl.mul-of_int len a h ∙ ap (λ x. f.of_int (pos x)) (sym e)

  module _ (len : ℕ) (small : len ≤ 2 ^ 53) where
    abbrev position : ℕ → F
    position n = f.mul (f.of_int (pos len)) (ratio n)

    position-nonneg : (n : ℕ) → n ≤ 100 → f.le (f.of_int (pos 0)) (position n) ≡ true
    position-nonneg n h =
        subst (λ x. f.le x (position n) ≡ true) (times len 0 (omega arith) 0 (omega arith))
          (rl.mul_mono len (f.of_int (pos 0)) (ratio n) small
            (le_exact 0 0 (omega arith) (omega arith)) (ratio-nonneg n h) (ratio-le_one n h))

    position-le : (n : ℕ) → n ≤ 100 → f.le (position n) (f.of_int (pos (2 ^ 53))) ≡ true
    position-le n h =
        rl.le_trans (position n) (f.of_int (pos len)) (f.of_int (pos (2 ^ 53)))
          (subst (λ x. f.le (position n) x ≡ true)
            (times len 1 (omega (arith, small)) len (omega arith))
            (rl.mul_mono len (ratio n) (f.of_int (pos 1)) small (ratio-nonneg n h)
              (ratio-le_one n h) (le_exact 1 1 (omega arith) (omega arith))))
          (le_exact len (2 ^ 53) small (omega arith))

    position-mono : (m n : ℕ) → m ≤ n → n ≤ 100 → f.to_int (position m) ≤ℤ f.to_int (position n)
    position-mono m n h k =
        rl.to_int_mono (position m) (position n) (position-nonneg m (omega (arith, h, k)))
          (rl.mul_mono len (ratio m) (ratio n) small (ratio-nonneg m (omega (arith, h, k)))
            (rl.div_mono m n 100 h (omega (arith, k)) (omega arith) (omega arith))
            (ratio-le_one n k))
          (position-le n k)

  quantile_nonempty :
      (xs : List ℤ) (q : F)
      → 1 ≤ length xs
      → quantile xs q
        ≡ at xs (clamp (f.to_int (f.mul (f.of_int (pos (length xs - 1))) q)) (length xs))
  unfolding quantile
  quantile_nonempty xs q h = ground (arith, h)

  quantile-mono :
      (xs : List ℤ) (m n : ℕ)
      → IsSorted xs
      → 1 ≤ length xs
      → length xs ≤ 2 ^ 53
      → m ≤ n
      → n ≤ 100
      → quantile xs (ratio m) ≤ℤ quantile xs (ratio n)
  quantile-mono xs m n s e l h k =
      rw (quantile_nonempty xs (ratio m) e, quantile_nonempty xs (ratio n) e)
        (at-mono xs _ _ s
          (clamp_mono _ _ (length xs) (position-mono (length xs - 1) (omega (arith, l)) m n h k))
          (clamp-lt _ (length xs) e))

  quantile-All :
      (P : ℤ → Type 0) (xs : List ℤ) (q : F) → 1 ≤ length xs → All P xs → P (quantile xs q)
  quantile-All P xs q h a =
      rw (quantile_nonempty xs q h) (All-at P xs _ (clamp-lt _ (length xs) h) a)

  quantiles_lem :
      (P : ℤ → Type 0) (xs : List ℤ)
      → IsSorted xs
      → 1 ≤ length xs
      → length xs ≤ 2 ^ 53
      → All P xs
      → IsSummary P (record {
        p50 = quantile xs (ratio 50);
        p90 = quantile xs (ratio 90);
        p95 = quantile xs (ratio 95);
        p99 = quantile xs (ratio 99);
      })
  quantiles_lem P xs s e l a = (
    (
      quantile-All P xs (ratio 50) e a,
      quantile-All P xs (ratio 90) e a,
      quantile-All P xs (ratio 95) e a,
      quantile-All P xs (ratio 99) e a,
    ),
    quantile-mono xs 50 90 s e l (omega arith) (omega arith),
    quantile-mono xs 90 95 s e l (omega arith) (omega arith),
    quantile-mono xs 95 99 s e l (omega arith) (omega arith),
  )

  snapshot_nonempty :
      (t : RingBufferTracker)
      → 1 ≤ count t
      → snapshot F t ≡ record {
        p50 = quantile (sort (valid_samples t)) (ratio 50);
        p90 = quantile (sort (valid_samples t)) (ratio 90);
        p95 = quantile (sort (valid_samples t)) (ratio 95);
        p99 = quantile (sort (valid_samples t)) (ratio 99);
      }
  unfolding snapshot count
  snapshot_nonempty t e = ground (arith, e)

  snapshot-IsSummary :
      (P : ℤ → Type 0) (t : RingBufferTracker)
      → IsInBounds t
      → 1 ≤ count t
      → length t.samples ≤ 2 ^ 53
      → All P (valid_samples t)
      → IsSummary P (snapshot F t)
  unfolding count
  snapshot-IsSummary P t v e l a =
      let sorted = sort (valid_samples t) in
      let size = length-sort (valid_samples t) ∙ length-valid_samples t v in
      let summary =
        quantiles_lem P sorted (sort-IsSorted (valid_samples t)) (omega (arith, size, e))
          (ground (arith, size, l, v)) (All-sort P (valid_samples t) a) in
      subst (IsSummary P) (sym (snapshot_nonempty t e)) summary

-- After at least one observation the four quantiles of a tracker's snapshot are in order, and
-- whatever holds of every latency that was observed holds of each of them, so that they lie between
-- the smallest and the largest. The tracker may have any size up to 2^53, and float64 rounds in a
-- way that keeps the order.
pub snapshot_summarises :
    {F : Type 0} ⦃f : FloatOps F⦄ (fl : FloatLaws f) (rl : RatioLaws f) (P : ℤ → Type 0)
    (size d : ℤ) (ds : List ℤ)
    → size ≤ℤ pos (2 ^ 53)
    → All P (d ∷ ds)
    → IsSummary P (snapshot F (observe_all (d ∷ ds) (new_tracker size)))
snapshot_summarises {F} fl rl P size d ds h a =
    let t : RingBufferTracker = observe_all (d ∷ ds) (new_tracker size) in
    snapshot-IsSummary fl rl P t
      (observe_all-IsInBounds (d ∷ ds) (new_tracker size) (new_tracker-IsInBounds size))
      (count-observe_all d ds (new_tracker size) (new_tracker-IsInBounds size))
      (omega (arith, length-observe_all (d ∷ ds) (new_tracker size), length-new_tracker size h))
      (valid_samples-IsFilled P t
        (observe_all-IsFilled P (d ∷ ds) (new_tracker size) a (new_tracker-IsFilled P size)))
