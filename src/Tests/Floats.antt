-- ===== src/Tests/Floats.antt =====
-- Numbers for the examples: the integers and a NaN. Their arithmetic is exact, and they satisfy the
-- laws that the theorems ask of float64.
use native.Mathlib.Nat.{le-div_iff_mul-le, mul-div-le, mul-div_cancel, mul-le-mul_left, mul_comm}
use rego.Common.{
  ℕ, ◌*◌, ◌/◌, ◌==◌, ℤ, pos, ◌+ℤ◌, ◌-ℤ◌, ◌*ℤ◌, +ℤ_parts, -ℤ_parts, ltb_ℤ, leb_ℤ, eqb_ℤ, ◌≡◌, refl,
  ap, Bool, true, false, arith, FloatOps, FloatLaws, OrderLaws, RatioLaws, ◌≤◌, ◌≤ℤ◌, negsuc,
  if◌then◌else◌,
}

pub data Num : Type 0 where
  num : ℤ → Num
  nan : Num

abbrev lt : Num → Num → Bool
lt (num a) (num b) = ltb_ℤ a b
lt _ _ = false

abbrev le : Num → Num → Bool
le (num a) (num b) = leb_ℤ a b
le _ _ = false

abbrev eq : Num → Num → Bool
eq (num a) (num b) = eqb_ℤ a b
eq _ _ = false

abbrev add : Num → Num → Num
add (num a) (num b) = num (a +ℤ b)
add _ _ = nan

abbrev sub : Num → Num → Num
sub (num a) (num b) = num (a -ℤ b)
sub _ _ = nan

abbrev mul : Num → Num → Num
mul (num a) (num b) = num (a *ℤ b)
mul _ _ = nan

abbrev div : Num → Num → Num
div (num (pos a)) (num (pos b)) = if b == 0 then nan else num (pos (a / b))
div _ _ = nan

abbrev to_int : Num → ℤ
to_int (num a) = a
to_int nan = pos 0

abbrev is_nan : Num → Bool
is_nan (num a) = false
is_nan nan = true

instance abbrev pub numbers : FloatOps Num
numbers = record {
  of_int = num;
  to_int = to_int;
  lt = lt;
  le = le;
  eq = eq;
  add = add;
  sub = sub;
  mul = mul;
  div = div;
  is_nan = is_nan;
  is_inf = λ a. false;
}

mul_pos : (a b : ℕ) → pos a *ℤ pos b ≡ pos (a * b)
unfolding ◌*ℤ◌
mul_pos a b = ground arith

add_nonneg :
    (a b : Num)
    → lt a (num (pos 0)) ≡ false
    → lt b (num (pos 0)) ≡ false
    → lt (add a b) (num (pos 0)) ≡ false
add_nonneg (num a) (num b) h k = ground (arith, +ℤ_parts a b)
add_nonneg (num a) nan h k = refl
add_nonneg nan b h k = refl

sub_nonneg : (a b : Num) → le b a ≡ true → lt (sub a b) (num (pos 0)) ≡ false
sub_nonneg (num a) (num b) h = ground (arith, -ℤ_parts a b)
sub_nonneg (num a) nan h = refl
sub_nonneg nan b h = refl

sub_capped : (c a b : Num) → lt c a ≡ false → lt b (num (pos 0)) ≡ false → lt c (sub a b) ≡ false
sub_capped (num c) (num a) (num b) h k = ground (arith, -ℤ_parts a b)
sub_capped (num c) (num a) nan h k = refl
sub_capped (num c) nan b h k = refl
sub_capped nan a b h k = refl

lt_irreflexive : (a : Num) → lt a a ≡ false
lt_irreflexive (num a) = ground arith
lt_irreflexive nan = refl

nan_lt : (a b : Num) → is_nan a ≡ true → (lt a b ≡ false) × (lt b a ≡ false)
nan_lt (num a) b h = absurd (cc h)
nan_lt nan (num b) h = (refl, refl)
nan_lt nan nan h = (refl, refl)

nan_eq : (a b : Num) → is_nan a ≡ true → eq a b ≡ false
nan_eq (num a) b h = absurd (cc h)
nan_eq nan b h = refl

pub laws : FloatLaws numbers
laws = record {
  lt-of_int = λ a b h k. refl;
  le-of_int = λ a b h k. refl;
  eq-of_int = λ a b h k. refl;
  sub-of_int = λ a b h k l. refl;
  mul-of_int = λ a b h. ap num (mul_pos a b);
  to_int-of_int = λ a h. refl;
  of_int-nonneg = λ n. ground arith;
  lt-irreflexive = lt_irreflexive;
  add-nonneg = add_nonneg;
  sub-nonneg = sub_nonneg;
  sub-capped = sub_capped;
  nan-lt = nan_lt;
  nan-eq = nan_eq;
  of_int_finite = λ a h. (refl, refl);
}

quotients_le :
    (a b d : ℕ)
    → 1 ≤ d
    → a / d ≤ b / d
    → le (div (num (pos a)) (num (pos d))) (div (num (pos b)) (num (pos d))) ≡ true
quotients_le a b d k h = ground (arith, k, h)

div_mono :
    (a b d : ℕ)
    → a ≤ b
    → 1 ≤ d
    → le (div (num (pos a)) (num (pos d))) (div (num (pos b)) (num (pos d))) ≡ true
div_mono a b d h k =
    let quotients : a / d ≤ b / d =
      (le-div_iff_mul-le (omega (arith, k))).1
        (omega (arith, h, mul_comm (a / d) d, mul-div-le a d)) in
    quotients_le a b d k quotients

div_exact : (a d : ℕ) → 1 ≤ d → div (num (pos (a * d))) (num (pos d)) ≡ num (pos a)
div_exact a d h = ground (arith, h, mul-div_cancel a {n = d} (omega (arith, h)))

mul_mono :
    (n : ℕ) (p q : Num)
    → le (num (pos 0)) p ≡ true
    → le p q ≡ true
    → le (mul (num (pos n)) p) (mul (num (pos n)) q) ≡ true
mul_mono n nan q h k = absurd (cc h)
mul_mono n (num p) nan h k = absurd (cc k)
mul_mono n (num (pos p)) (num (pos q)) h k =
    let ordered : p ≤ q = ground (arith, k) in
    ground (arith, mul_pos n p, mul_pos n q, mul-le-mul_left n ordered)
mul_mono n (num (negsuc p)) (num q) h k = absurd (ground (arith, h))
mul_mono n (num (pos p)) (num (negsuc q)) h k = absurd (ground (arith, k))

to_int_mono : (p q : Num) → le p q ≡ true → to_int p ≤ℤ to_int q
to_int_mono (num p) (num q) h = ground (arith, h)
to_int_mono nan q h = absurd (cc h)
to_int_mono (num p) nan h = absurd (cc h)

num_le_trans : (p q r : Num) → le p q ≡ true → le q r ≡ true → le p r ≡ true
num_le_trans (num p) (num q) (num r) h k = ground (arith, h, k)
num_le_trans nan q r h k = absurd (cc h)
num_le_trans (num p) nan r h k = absurd (cc h)
num_le_trans (num p) (num q) nan h k = absurd (cc k)

pub ratio_laws : RatioLaws numbers
ratio_laws = record {
  div_mono = λ a b d h k l m. div_mono a b d h l;
  div_exact = λ a d h k. div_exact a d h;
  mul_mono = λ n p q h k l m. mul_mono n p q k l;
  to_int_mono = λ p q h k l. to_int_mono p q k;
  le_trans = num_le_trans;
}

num_le_number : (a b : Num) → le a b ≡ true → (is_nan a ≡ false) × (is_nan b ≡ false)
num_le_number (num a) (num b) h = (refl, refl)
num_le_number nan b h = absurd (cc h)
num_le_number (num a) nan h = absurd (cc h)

num_le_total : (a b : Num) → is_nan a ≡ false → is_nan b ≡ false → lt a b ≡ false → le b a ≡ true
num_le_total (num a) (num b) h k l = ground (arith, l)
num_le_total nan b h k l = absurd (cc h)
num_le_total (num a) nan h k l = absurd (cc k)

num_le_self : (a : Num) → is_nan a ≡ false → le a a ≡ true
num_le_self (num a) h = ground arith
num_le_self nan h = absurd (cc h)

num_add_up :
    (a b : Num)
    → le (num (pos 0)) a ≡ true
    → le (num (pos 0)) b ≡ true
    → le (num (pos 0)) (add a b) ≡ true
num_add_up (num a) (num b) h k = ground (arith, h, k, +ℤ_parts a b)
num_add_up nan b h k = absurd (cc h)
num_add_up (num a) nan h k = absurd (cc k)

num_sub_down :
    (a b : Num)
    → le (num (pos 0)) b ≡ true
    → le b a ≡ true
    → (le (num (pos 0)) (sub a b) ≡ true) × (le (sub a b) a ≡ true)
num_sub_down (num a) (num b) h k = ground (arith, h, k, -ℤ_parts a b)
num_sub_down a nan h k = absurd (cc h)
num_sub_down nan (num b) h k = absurd (cc k)

pub order_laws : OrderLaws numbers
order_laws = record {
  le_number = num_le_number;
  le_total = num_le_total;
  le_self = num_le_self;
  le_chain = num_le_trans;
  of_int_ordered = λ n. ground arith;
  of_int_bounded = λ n h. refl;
  finite_below = λ a c h k l. refl;
  add_up = num_add_up;
  sub_down = λ a b h k l. num_sub_down a b h k;
}
