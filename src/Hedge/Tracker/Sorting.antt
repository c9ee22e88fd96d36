-- ===== src/Hedge/Tracker/Sorting.antt =====
-- hedge/tracker.go: `sort.Slice` in `Snapshot` puts the samples in order and keeps them.
use rego.Common.{
  ℕ, zero, suc, ◌<◌, ◌≤◌, ℤ, ◌≤ℤ◌, leb_ℤ, ◌≡◌, refl, ap, ◌∙◌, Bool-cases, inl, inr, true, false,
  List, [], ◌∷◌, length, All, arith,
}
use rego.Hedge.Tracker.{insert_sorted, sort, at}

abbrev pub IsSorted : List ℤ → Type 0
IsSorted [] = Unit {0}
IsSorted (x ∷ xs) = All (λ y. x ≤ℤ y) xs × IsSorted xs

module _ (P : ℤ → Type 0) where
  All-insert_sorted : (x : ℤ) (xs : List ℤ) → P x → All P xs → All P (insert_sorted x xs)
  All-insert_sorted x [] p a = (p, tt)
  All-insert_sorted x (y ∷ ys) p a = elim (Bool-cases (leb_ℤ x y)) [
    | inl le ↦ rw le (p, a)
    | inr gt ↦ rw gt (a.0, All-insert_sorted x ys p a.1)
  ]

  pub All-sort : (xs : List ℤ) → All P xs → All P (sort xs)
  All-sort [] a = tt
  All-sort (x ∷ xs) a = All-insert_sorted x (sort xs) a.0 (All-sort xs a.1)

  pub All-at : (xs : List ℤ) (i : ℕ) → i < length xs → All P xs → P (at xs i)
  All-at [] i h a = absurd (omega (arith, h))
  All-at (x ∷ xs) zero h a = a.0
  All-at (x ∷ xs) (suc i) h a = All-at xs i (omega (arith, h)) a.1

length-insert_sorted : (x : ℤ) (xs : List ℤ) → length (insert_sorted x xs) ≡ suc (length xs)
length-insert_sorted x [] = refl
length-insert_sorted x (y ∷ ys) = ground (arith, length-insert_sorted x ys)

pub length-sort : (xs : List ℤ) → length (sort xs) ≡ length xs
length-sort [] = refl
length-sort (x ∷ xs) = length-insert_sorted x (sort xs) ∙ ap suc (length-sort xs)

All-weaken : (x y : ℤ) (xs : List ℤ) → x ≤ℤ y → All (λ z. y ≤ℤ z) xs → All (λ z. x ≤ℤ z) xs
All-weaken x y [] h a = tt
All-weaken x y (z ∷ zs) h a = (omega (arith, h, a.0), All-weaken x y zs h a.1)

insert_sorted-IsSorted : (x : ℤ) (xs : List ℤ) → IsSorted xs → IsSorted (insert_sorted x xs)
insert_sorted-IsSorted x [] s = (tt, tt)
insert_sorted-IsSorted x (y ∷ ys) s = elim (Bool-cases (leb_ℤ x y)) [
  | inl le ↦ rw le ((below le, All-weaken x y ys (below le) s.0), s)
  | inr gt ↦
      rw gt (All-insert_sorted (λ z. y ≤ℤ z) x ys (above gt) s.0, insert_sorted-IsSorted x ys s.1)
]
  where
    below : leb_ℤ x y ≡ true → x ≤ℤ y
    below h = ground (arith, h)

    above : leb_ℤ x y ≡ false → y ≤ℤ x
    above h = ground (arith, h)

pub sort-IsSorted : (xs : List ℤ) → IsSorted (sort xs)
sort-IsSorted [] = tt
sort-IsSorted (x ∷ xs) = insert_sorted-IsSorted x (sort xs) (sort-IsSorted xs)

-- Later elements of a sorted list are not smaller.
pub at-mono : (xs : List ℤ) (i j : ℕ) → IsSorted xs → i ≤ j → j < length xs → at xs i ≤ℤ at xs j
at-mono [] i j s h k = absurd (omega (arith, k))
at-mono (x ∷ xs) zero zero s h k = omega arith
at-mono (x ∷ xs) zero (suc j) s h k = All-at (λ y. x ≤ℤ y) xs j (omega (arith, k)) s.0
at-mono (x ∷ xs) (suc i) zero s h k = absurd (omega (arith, h))
at-mono (x ∷ xs) (suc i) (suc j) s h k = at-mono xs i j s.1 (omega (arith, h)) (omega (arith, k))
