-- ===== src/Hedge/Tracker/Samples.antt =====
-- hedge/tracker.go: what a tracker holds after observations.
use rego.Common.{
  ℕ, zero, suc, ◌+◌, ◌^◌, ◌≤◌, ℤ, pos, negsuc, ◌≤ℤ◌, leb, ◌≡◌, refl, ap, subst, ◌∙◌, Bool, true,
  false, List, [], ◌∷◌, length, set, take, All, if◌then◌else◌, length-set, length-replicate, arith,
}
use rego.Hedge.Tracker.{RingBufferTracker, new_tracker, observe, observe_all, valid_samples}
use rego.Hedge.Tracker.Laws.{IsInBounds, length-observe, observe-IsInBounds}

module _ (P : ℤ → Type 0) where
  All-set : (xs : List ℤ) (i : ℕ) (d : ℤ) → P d → All P xs → All P (set xs i d)
  All-set [] i d p a = tt
  All-set (x ∷ xs) zero d p a = (p, a.1)
  All-set (x ∷ xs) (suc i) d p a = (a.0, All-set xs i d p a.1)

  All-take-set :
      (xs : List ℤ) (i : ℕ) (d : ℤ) → P d → All P (take i xs) → All P (take (suc i) (set xs i d))
  All-take-set [] i d p a = tt
  All-take-set (x ∷ xs) zero d p a = (p, tt)
  All-take-set (x ∷ xs) (suc i) d p a = (a.0, All-take-set xs i d p a.1)

  All-take_long : (xs : List ℤ) (n : ℕ) → length xs ≤ n → All P (take n xs) → All P xs
  All-take_long [] n h a = tt
  All-take_long (x ∷ xs) zero h a = absurd (omega (arith, h))
  All-take_long (x ∷ xs) (suc n) h a = (a.0, All-take_long xs n (omega (arith, h)) a.1)

  -- What was written satisfies `P`.
  abbrev pub IsFilled : RingBufferTracker → Type 0
  IsFilled t = All P (take t.idx t.samples) × (t.full ≡ true → All P t.samples)

  observe-IsFilled : (d : ℤ) (t : RingBufferTracker) → P d → IsFilled t → IsFilled (observe d t)
  unfolding observe
  observe-IsFilled d t p v =
      let written = set t.samples t.idx d in
      let upto : All P (take (t.idx + 1) written) =
        subst (λ n. All P (take n written)) {x = suc t.idx} (omega arith)
          (All-take-set t.samples t.idx d p v.0) in
      by_end (leb (length written) (t.idx + 1)) refl upto
    where
      by_end :
          (b : Bool)
          → leb (length (set t.samples t.idx d)) (t.idx + 1) ≡ b
          → All P (take (t.idx + 1) (set t.samples t.idx d))
          → IsFilled (
              if b
              then record { samples = set t.samples t.idx d; idx = 0; full = true }
              else record t { samples = set t.samples t.idx d; idx = t.idx + 1 })
      by_end true h upto = (tt, λ _. All-take_long _ (t.idx + 1) (ground (arith, h)) upto)
      by_end false h upto = (upto, λ full. All-set t.samples t.idx d p (v.1 full))

  pub observe_all-IsFilled :
      (ds : List ℤ) (t : RingBufferTracker) → All P ds → IsFilled t → IsFilled (observe_all ds t)
  unfolding observe_all
  observe_all-IsFilled [] t a v = v
  observe_all-IsFilled (d ∷ ds) t a v =
      observe_all-IsFilled ds (observe d t) a.1 (observe-IsFilled d t a.0 v)

  pub valid_samples-IsFilled : (t : RingBufferTracker) → IsFilled t → All P (valid_samples t)
  unfolding valid_samples
  valid_samples-IsFilled t v = by_full t.full refl
    where
      by_full : (b : Bool) → t.full ≡ b → All P (if b then t.samples else take t.idx t.samples)
      by_full true h = v.1 h
      by_full false h = v.0

  pub new_tracker-IsFilled : (size : ℤ) → IsFilled (new_tracker size)
  unfolding new_tracker
  new_tracker-IsFilled size = (tt, λ full. absurd (cc full))

unfoldable pub count : RingBufferTracker → ℕ
count t = if t.full then length t.samples else t.idx

length-take : {A : Type 0} (n : ℕ) (xs : List A) → n ≤ length xs → length (take n xs) ≡ n
length-take zero xs h = refl
length-take (suc n) [] h = absurd (omega (arith, h))
length-take (suc n) (x ∷ xs) h = ap suc (length-take n xs (omega (arith, h)))

pub length-valid_samples :
    (t : RingBufferTracker) → IsInBounds t → length (valid_samples t) ≡ count t
unfolding valid_samples count
length-valid_samples t v = by_full t.full
  where
    by_full :
        (b : Bool)
        → length (if b then t.samples else take t.idx t.samples)
          ≡ (if b then length t.samples else t.idx)
    by_full true = refl
    by_full false = length-take t.idx t.samples (omega (arith, v))

-- A tracker that has observed something has samples that count.
count-observe : (d : ℤ) (t : RingBufferTracker) → IsInBounds t → 1 ≤ count (observe d t)
unfolding count observe
count-observe d t v = ground (arith, v, length-set t.samples t.idx d)

pub count-observe_all :
    (d : ℤ) (ds : List ℤ) (t : RingBufferTracker)
    → IsInBounds t
    → 1 ≤ count (observe_all (d ∷ ds) t)
unfolding observe_all
count-observe_all d [] t v = count-observe d t v
count-observe_all d (e ∷ ds) t v = count-observe_all e ds (observe d t) (observe-IsInBounds d t v)

pub length-observe_all :
    (ds : List ℤ) (t : RingBufferTracker) → length (observe_all ds t).samples ≡ length t.samples
unfolding observe_all
length-observe_all [] t = refl
length-observe_all (d ∷ ds) t = length-observe_all ds (observe d t) ∙ length-observe d t

pub length-new_tracker :
    (size : ℤ) → size ≤ℤ pos (2 ^ 53) → length (new_tracker size).samples ≤ 2 ^ 53
unfolding new_tracker
length-new_tracker (pos zero) h = omega (arith, length-replicate 256 (pos 0))
length-new_tracker (pos (suc n)) h = omega (arith, h, length-replicate (suc n) (pos 0))
length-new_tracker (negsuc n) h = omega (arith, length-replicate 256 (pos 0))
