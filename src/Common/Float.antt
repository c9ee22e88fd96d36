-- ===== src/Common/Float.antt =====
-- The operations on float64 that the source uses, over a carrier `F`. The language here has no
-- floats, so the carrier and its operations are a parameter, and what a theorem needs of IEEE 754
-- stands among its hypotheses.
use Prim.Native.Nat.{ℕ, ◌+◌, ◌*◌, ◌^◌, ◌≤◌}
use mathlib.Core.Path.{◌≡◌}
use mathlib.Core.Bool.{Bool, true, false}
use rego.Common.Int.{ℤ, pos, pos_part, neg_part, ◌-ℤ◌, ◌≤ℤ◌, ltb_ℤ, leb_ℤ, eqb_ℤ}

pub record FloatOps (F : Type 0) : Type 0 where
  pub of_int : ℤ → F
  -- Conversion to an integer type truncates; out of range its result is some integer.
  pub to_int : F → ℤ
  pub lt : F → F → Bool
  pub le : F → F → Bool
  pub eq : F → F → Bool
  pub add : F → F → F
  pub sub : F → F → F
  pub mul : F → F → F
  pub div : F → F → F
  pub is_nan : F → Bool
  pub is_inf : F → Bool

-- IEEE 754 doubles hold the integers up to 2^53 exactly, and compare them as integers.
abbrev pub IsExact : ℤ → Type 0
IsExact a = pos_part a + neg_part a ≤ 2 ^ 53

pub record FloatLaws {F : Type 0} (f : FloatOps F) : Type 0 where
  pub lt-of_int : (a b : ℤ) → IsExact a → IsExact b → f.lt (f.of_int a) (f.of_int b) ≡ ltb_ℤ a b
  pub le-of_int : (a b : ℤ) → IsExact a → IsExact b → f.le (f.of_int a) (f.of_int b) ≡ leb_ℤ a b
  pub eq-of_int : (a b : ℤ) → IsExact a → IsExact b → f.eq (f.of_int a) (f.of_int b) ≡ eqb_ℤ a b
  pub sub-of_int :
      (a b : ℤ)
      → IsExact a
      → IsExact b
      → IsExact (a -ℤ b)
      → f.sub (f.of_int a) (f.of_int b) ≡ f.of_int (a -ℤ b)
  pub mul-of_int :
      (a b : ℕ)
      → a * b ≤ 2 ^ 53
      → f.mul (f.of_int (pos a)) (f.of_int (pos b)) ≡ f.of_int (pos (a * b))
  pub to_int-of_int : (a : ℤ) → IsExact a → f.to_int (f.of_int a) ≡ a
  pub of_int-nonneg : (n : ℕ) → f.lt (f.of_int (pos n)) (f.of_int (pos 0)) ≡ false
  pub lt-irreflexive : (a : F) → f.lt a a ≡ false
  -- Sums and differences are rounded, and rounding keeps the order; a NaN is below nothing.
  pub add-nonneg :
      (a b : F)
      → f.lt a (f.of_int (pos 0)) ≡ false
      → f.lt b (f.of_int (pos 0)) ≡ false
      → f.lt (f.add a b) (f.of_int (pos 0)) ≡ false
  pub sub-nonneg : (a b : F) → f.le b a ≡ true → f.lt (f.sub a b) (f.of_int (pos 0)) ≡ false
  pub sub-capped :
      (c a b : F)
      → f.lt c a ≡ false
      → f.lt b (f.of_int (pos 0)) ≡ false
      → f.lt c (f.sub a b) ≡ false
  -- A comparison with a NaN is false.
  pub nan-lt : (a b : F) → f.is_nan a ≡ true → (f.lt a b ≡ false) × (f.lt b a ≡ false)
  pub nan-eq : (a b : F) → f.is_nan a ≡ true → f.eq a b ≡ false
  pub of_int_finite :
      (a : ℤ) → IsExact a → (f.is_nan (f.of_int a) ≡ false) × (f.is_inf (f.of_int a) ≡ false)

-- Division, multiplication and truncation between zero and 2^53: rounding keeps the order.
pub record RatioLaws {F : Type 0} (f : FloatOps F) : Type 0 where
  pub div_mono :
      (a b d : ℕ)
      → a ≤ b
      → b ≤ 2 ^ 53
      → 1 ≤ d
      → d ≤ 2 ^ 53
      → f.le
          (f.div (f.of_int (pos a)) (f.of_int (pos d)))
          (f.div (f.of_int (pos b)) (f.of_int (pos d)))
        ≡ true
  pub div_exact :
      (a d : ℕ)
      → 1 ≤ d
      → a * d ≤ 2 ^ 53
      → f.div (f.of_int (pos (a * d))) (f.of_int (pos d)) ≡ f.of_int (pos a)
  pub mul_mono :
      (n : ℕ) (p q : F)
      → n ≤ 2 ^ 53
      → f.le (f.of_int (pos 0)) p ≡ true
      → f.le p q ≡ true
      → f.le q (f.of_int (pos 1)) ≡ true
      → f.le (f.mul (f.of_int (pos n)) p) (f.mul (f.of_int (pos n)) q) ≡ true
  pub to_int_mono :
      (p q : F)
      → f.le (f.of_int (pos 0)) p ≡ true
      → f.le p q ≡ true
      → f.le q (f.of_int (pos (2 ^ 53))) ≡ true
      → f.to_int p ≤ℤ f.to_int q
  pub le_trans : (p q r : F) → f.le p q ≡ true → f.le q r ≡ true → f.le p r ≡ true

-- The order on the numbers that are not a NaN, and on the results of `add` and `sub` above zero.
pub record OrderLaws {F : Type 0} (f : FloatOps F) : Type 0 where
  pub le_number : (a b : F) → f.le a b ≡ true → (f.is_nan a ≡ false) × (f.is_nan b ≡ false)
  pub le_total :
      (a b : F) → f.is_nan a ≡ false → f.is_nan b ≡ false → f.lt a b ≡ false → f.le b a ≡ true
  pub le_self : (a : F) → f.is_nan a ≡ false → f.le a a ≡ true
  pub le_chain : (a b c : F) → f.le a b ≡ true → f.le b c ≡ true → f.le a c ≡ true
  pub of_int_ordered : (n : ℕ) → f.le (f.of_int (pos 0)) (f.of_int (pos n)) ≡ true
  pub of_int_bounded : (n : ℕ) → n ≤ 2 ^ 63 → f.is_inf (f.of_int (pos n)) ≡ false
  pub finite_below :
      (a c : F)
      → f.le (f.of_int (pos 0)) a ≡ true
      → f.le a c ≡ true
      → f.is_inf c ≡ false
      → f.is_inf a ≡ false
  pub add_up :
      (a b : F)
      → f.le (f.of_int (pos 0)) a ≡ true
      → f.le (f.of_int (pos 0)) b ≡ true
      → f.le (f.of_int (pos 0)) (f.add a b) ≡ true
  pub sub_down :
      (a b : F)
      → f.le (f.of_int (pos 0)) b ≡ true
      → f.le b a ≡ true
      → f.is_inf a ≡ false
      → (f.le (f.of_int (pos 0)) (f.sub a b) ≡ true) × (f.le (f.sub a b) a ≡ true)
