-- ===== src/Hedge/Tracker/Laws.antt =====
-- hedge/tracker.go: the writes of the ring buffer.
use rego.Common.{
  ℕ, zero, suc, ◌<◌, ℤ, pos, negsuc, List, [], ◌∷◌, some, length, get_elem?, set, ◌≡◌, refl,
  length-set, length-replicate, arith,
}
use rego.Hedge.Tracker.{RingBufferTracker, new_tracker, observe, observe_all}

-- The next write is in bounds.
abbrev pub IsInBounds : RingBufferTracker → Type 0
IsInBounds t = t.idx < length t.samples

pub observe-IsInBounds : (d : ℤ) (t : RingBufferTracker) → IsInBounds t → IsInBounds (observe d t)
unfolding observe
observe-IsInBounds d t v = ground (arith, length-set t.samples t.idx d)

pub observe_all-IsInBounds :
    (ds : List ℤ) (t : RingBufferTracker) → IsInBounds t → IsInBounds (observe_all ds t)
unfolding observe_all
observe_all-IsInBounds [] t v = v
observe_all-IsInBounds (d ∷ ds) t v =
    observe_all-IsInBounds ds (observe d t) (observe-IsInBounds d t v)

pub new_tracker-IsInBounds : (size : ℤ) → IsInBounds (new_tracker size)
unfolding new_tracker
new_tracker-IsInBounds (pos zero) = omega (arith, length-replicate 256 (pos 0))
new_tracker-IsInBounds (pos (suc n)) = omega (arith, length-replicate (suc n) (pos 0))
new_tracker-IsInBounds (negsuc n) = omega (arith, length-replicate 256 (pos 0))

pub length-observe :
    (d : ℤ) (t : RingBufferTracker) → length (observe d t).samples ≡ length t.samples
unfolding observe
length-observe d t = ground (arith, length-set t.samples t.idx d)

read-set : (xs : List ℤ) (i : ℕ) (d : ℤ) → i < length xs → get_elem? (set xs i d) i ≡ some d
read-set [] i d h = absurd (omega (arith, h))
read-set (x ∷ xs) zero d h = refl
read-set (x ∷ xs) (suc i) d h = read-set xs i d (omega (arith, h))

observe_writes :
    (d : ℤ) (t : RingBufferTracker) → IsInBounds t → get_elem? (observe d t).samples t.idx ≡ some d
unfolding observe
observe_writes d t v = ground (arith, read-set t.samples t.idx d v)

-- A tracker of any size and after any observations writes its next sample within its buffer, keeps
-- the buffer's length, and holds that sample where it was written.
pub tracker_in_bounds :
    (size d : ℤ) (ds : List ℤ)
    → let t = observe_all ds (new_tracker size) in
      (t.idx < length t.samples)
      × (length (observe d t).samples ≡ length t.samples)
      × (get_elem? (observe d t).samples t.idx ≡ some d)
tracker_in_bounds size d ds =
    let t : RingBufferTracker = observe_all ds (new_tracker size) in
    let v = observe_all-IsInBounds ds (new_tracker size) (new_tracker-IsInBounds size) in
    (v, length-observe d t, observe_writes d t v)
