-- ===== src/Float.antt =====
-- Floating point numbers, `f32` and `f64`, which the language supplies: a type with the operations
-- that the program uses. Comparisons are the IEEE ones, so each of them fails on NaN.
-- `a > b` is `lt b a` and `a >= b` is `le b a`.
pub mod Laws
pub mod Fixed
use loadbear.Prelude.{ℕ, Bool, false, String, if◌then◌else◌, List, [], ◌∷◌, foldl}

pub record Float (F : Type 0) : Type 0 where
  pub lt : F → F → Bool
  pub le : F → F → Bool
  pub add : F → F → F
  pub sub : F → F → F
  pub mul : F → F → F
  pub div : F → F → F
  -- `max`, which prefers a number to NaN
  pub maximum : F → F → F
  -- the result of `total_cmp` is not `Greater`
  pub total_le : F → F → Bool
  pub is_nan : F → Bool
  pub is_finite : F → Bool
  -- `as f32` and `as f64` of an unsigned integer
  pub of_ℕ : ℕ → F
  -- the literal with these digits, of which so many stand behind the point
  pub decimal : ℕ → ℕ → F
  -- `{:.n}` for this n
  pub show_fixed : ℕ → F → String

module _ {F : Type 0} ⦃f : Float F⦄ where
  abbrev pub zero_float : F
  zero_float = f.decimal 0 1

  -- `clamp`, which leaves NaN alone
  abbrev pub clamp : F → F → F → F
  clamp x low high = if f.lt x low then low else if f.lt high x then high else x

  -- `Iterator::sum`
  abbrev pub sum_floats : List F → F
  sum_floats = foldl f.add zero_float
