-- ===== src/Hedge/Tracker.antt =====
-- hedge/tracker.go: the ring buffer of latencies. The lock makes each method one step. `sort.Slice`
-- is an insertion sort here: on integers every sort gives the same list.
pub mod Laws
pub mod Sorting
pub mod Samples
pub mod Quantiles
use rego.Common.{
  ℕ, suc, ◌+◌, ◌-◌, ℤ, pos, negsuc, leb_ℤ, leb, ◌==◌, Bool, true, false, List, [], ◌∷◌, Option,
  none, some, length, get_elem?, set, take, replicate, FloatOps, if◌then◌else◌,
}

pub record LatencySnapshot : Type 0 where
  pub p50 : ℤ
  pub p90 : ℤ
  pub p95 : ℤ
  pub p99 : ℤ

abbrev pub zero_snapshot : LatencySnapshot
zero_snapshot = record { p50 = pos 0; p90 = pos 0; p95 = pos 0; p99 = pos 0 }

pub record RingBufferTracker : Type 0 where
  pub samples : List ℤ
  pub idx : ℕ
  pub full : Bool

-- `NewRingBufferTracker`
unfoldable pub new_tracker : ℤ → RingBufferTracker
new_tracker size = record {
  samples = replicate (elim size [ pos (suc n) ↦ suc n | _ ↦ 256 ]) (pos 0);
  idx = 0;
  full = false;
}

-- `Observe`; the write is in bounds by `Laws`.
unfoldable pub observe : ℤ → RingBufferTracker → RingBufferTracker
observe d t =
    let written = set t.samples t.idx d in
    if leb (length written) (t.idx + 1)
    then record { samples = written; idx = 0; full = true }
    else record t { samples = written; idx = t.idx + 1 }

unfoldable pub observe_all : List ℤ → RingBufferTracker → RingBufferTracker
observe_all [] t = t
observe_all (d ∷ ds) t = observe_all ds (observe d t)

-- The samples that count.
unfoldable pub valid_samples : RingBufferTracker → List ℤ
valid_samples t = if t.full then t.samples else take t.idx t.samples

abbrev pub insert_sorted : ℤ → List ℤ → List ℤ
insert_sorted x [] = x ∷ []
insert_sorted x (y ∷ ys) = if leb_ℤ x y then x ∷ y ∷ ys else y ∷ insert_sorted x ys

abbrev pub sort : List ℤ → List ℤ
sort [] = []
sort (x ∷ xs) = insert_sorted x (sort xs)

-- The index that `quantile` reads, brought into range.
unfoldable pub clamp : ℤ → ℕ → ℕ
clamp (pos i) n = if leb n i then n - 1 else i
clamp (negsuc i) n = 0

-- The element at an index; an index out of range would panic.
abbrev pub at : List ℤ → ℕ → ℤ
at xs i = elim (get_elem? xs i) [ some x ↦ x | none ↦ pos 0 ]

module _ {F : Type 0} ⦃f : FloatOps F⦄ where
  unfoldable pub quantile : List ℤ → F → ℤ
  quantile sorted q =
      if length sorted == 0
      then pos 0
      else at sorted
          (clamp (f.to_int (f.mul (f.of_int (pos (length sorted - 1))) q)) (length sorted))

-- The literal `n/100`: float64 division rounds to the same value.
abbrev pub hundredths : (F : Type 0) ⦃f : FloatOps F⦄ → ℕ → F
hundredths F ⦃f⦄ n = f.div (f.of_int (pos n)) (f.of_int (pos 100))

-- `Snapshot`
unfoldable pub snapshot : (F : Type 0) ⦃f : FloatOps F⦄ → RingBufferTracker → LatencySnapshot
snapshot F t =
    let count = if t.full then length t.samples else t.idx in
    let sorted = sort (valid_samples t) in
    if count == 0 then zero_snapshot else record {
      p50 = quantile sorted (hundredths F 50);
      p90 = quantile sorted (hundredths F 90);
      p95 = quantile sorted (hundredths F 95);
      p99 = quantile sorted (hundredths F 99);
    }
