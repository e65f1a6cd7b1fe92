-- ===== src/Float/Fixed.antt =====
-- Numbers in thousandths, with NaN: an instance in which runs are evaluated, and which meets the
-- laws. It is no model of the binary format.
use native.Mathlib.Nat.{div-zero, le-div_iff_mul-le, div-mul-le_self}
use loadbear.Prelude.{
  ℕ, zero, suc, ◌+◌, ◌-◌, ◌*◌, ◌/◌, ◌^◌, ◌≤◌, ◌≡◌, refl, Bool, true, false, not, arith, ltb, leb,
  if◌then◌else◌, show_ℕ,
}
use loadbear.Float.{Float}
use loadbear.Float.Laws.{IsOrdered, IsTotal, IsCast}

-- `num p n` is (p - n) / 1000, and one of the two is 0.
pub data Fixed : Type 0 where
  nan : Fixed
  num : ℕ → ℕ → Fixed

-- the number with this positive and this negative part
abbrev pub diff : ℕ → ℕ → Fixed
diff p n = num (p - n) (n - p)

abbrev fixed_le : Fixed → Fixed → Bool
fixed_le (num a b) (num c d) = leb (a + d) (c + b)
fixed_le nan y = false
fixed_le (num a b) nan = false

abbrev fixed_lt : Fixed → Fixed → Bool
fixed_lt (num a b) (num c d) = ltb (a + d) (c + b)
fixed_lt nan y = false
fixed_lt (num a b) nan = false

-- NaN is above every number.
abbrev fixed_total_le : Fixed → Fixed → Bool
fixed_total_le x nan = true
fixed_total_le nan (num c d) = false
fixed_total_le (num a b) (num c d) = leb (a + d) (c + b)

abbrev fixed_is_nan : Fixed → Bool
fixed_is_nan nan = true
fixed_is_nan (num a b) = false

abbrev on_numbers : (ℕ → ℕ → ℕ → ℕ → Fixed) → Fixed → Fixed → Fixed
on_numbers f (num a b) (num c d) = f a b c d
on_numbers f nan y = nan
on_numbers f (num a b) nan = nan

-- Division by nothing gives NaN.
abbrev fixed_div : ℕ → ℕ → ℕ → ℕ → Fixed
fixed_div a b (suc c) zero = diff (a * 1000 / suc c) (b * 1000 / suc c)
fixed_div a b zero (suc d) = diff (b * 1000 / suc d) (a * 1000 / suc d)
fixed_div a b _ _ = nan

abbrev fixed_maximum : Fixed → Fixed → Fixed
fixed_maximum nan y = y
fixed_maximum (num a b) nan = num a b
fixed_maximum (num a b) (num c d) = if leb (a + d) (c + b) then num c d else num a b

instance abbrev pub fixed_float : Float Fixed
fixed_float = record {
  lt = fixed_lt;
  le = fixed_le;
  add = on_numbers (λ a b c d. diff (a + c) (b + d));
  sub = on_numbers (λ a b c d. diff (a + d) (b + c));
  mul = on_numbers (λ a b c d. diff ((a * c + b * d) / 1000) ((a * d + b * c) / 1000));
  div = on_numbers fixed_div;
  maximum = fixed_maximum;
  total_le = fixed_total_le;
  is_nan = fixed_is_nan;
  is_finite = λ x. not (fixed_is_nan x);
  of_ℕ = λ n. num (n * 1000) 0;
  decimal = λ m d. num (m * 1000 / 10 ^ d) 0;
  show_fixed = λ n x. elim x [ nan ↦ "NaN" | num a b ↦ show_ℕ (a / 1000) ];
}

div_mono : (m n k : ℕ) → m ≤ n → m / k ≤ n / k
div_mono m n zero h = rw (div-zero m, div-zero n) (omega arith)
div_mono m n (suc k) h =
    (le-div_iff_mul-le (omega arith)).1 (omega (arith, div-mul-le_self m (suc k)))

decimal_mono :
    (m n d : ℕ) → m ≤ n → fixed_le (fixed_float.decimal m d) (fixed_float.decimal n d) ≡ true
decimal_mono m n d h = ground (arith, div_mono (m * 1000) (n * 1000) (10 ^ d))

pub Fixed-IsOrdered : IsOrdered Fixed
Fixed-IsOrdered = record {
  le_numbers = ground arith;
  lt_numbers = ground arith;
  lt-eq-not-le = ground arith;
  le_refl = ground arith;
  le_of_lt = ground arith;
  le_trans = ground arith;
  of_ℕ_number = ground arith;
  decimal_number = ground arith;
  decimal_mono = decimal_mono;
  sub_antitone = ground arith;
  finite_number = ground arith;
  of_ℕ_mono = ground arith;
}

pub Fixed-IsTotal : IsTotal Fixed
Fixed-IsTotal = ground arith

pub Fixed-IsCast : IsCast Fixed Fixed (λ x. x)
Fixed-IsCast = record { cast_nan = λ x e. e; cast_mono = λ x y e. e; cast_whole = λ n h. refl }
