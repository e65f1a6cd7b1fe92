-- ===== src/Float/Laws.antt =====
-- What the properties use of floating point numbers: the order of the numbers that are not NaN, and
-- that the conversion from integers is monotone.
use mathlib.Core.Path.{subst}
use loadbear.Prelude.{ℕ, true, false, not, ◌*◌, ◌≡◌, ◌≤◌, ◌<◌, ◌⊎◌, inl, inr, Bool-cases, arith}
use loadbear.Float.{Float, clamp}

pub record IsOrdered (F : Type 0) ⦃f : Float F⦄ : Type 0 where
  pub le_numbers : (x y : F) → f.le x y ≡ true → (f.is_nan x ≡ false) × (f.is_nan y ≡ false)
  pub lt_numbers : (x y : F) → f.lt x y ≡ true → (f.is_nan x ≡ false) × (f.is_nan y ≡ false)
  pub lt-eq-not-le : (x y : F) → f.is_nan x ≡ false → f.is_nan y ≡ false → f.lt x y ≡ not (f.le y x)
  pub le_refl : (x : F) → f.is_nan x ≡ false → f.le x x ≡ true
  pub le_of_lt : (x y : F) → f.lt x y ≡ true → f.le x y ≡ true
  pub le_trans : (x y z : F) → f.le x y ≡ true → f.le y z ≡ true → f.le x z ≡ true
  pub of_ℕ_number : (n : ℕ) → f.is_nan (f.of_ℕ n) ≡ false
  pub decimal_number : (m d : ℕ) → f.is_nan (f.decimal m d) ≡ false
  pub decimal_mono : (m n d : ℕ) → m ≤ n → f.le (f.decimal m d) (f.decimal n d) ≡ true
  pub sub_antitone :
      (x y z : F)
      → f.le x y ≡ true
      → f.is_nan (f.sub z x) ≡ false
      → f.is_nan (f.sub z y) ≡ false
      → f.le (f.sub z y) (f.sub z x) ≡ true
  pub finite_number : (x : F) → f.is_finite x ≡ true → f.is_nan x ≡ false
  pub of_ℕ_mono : (m n : ℕ) → m ≤ n → f.le (f.of_ℕ m) (f.of_ℕ n) ≡ true

-- `total_cmp` is a total order, and agrees with `<=` on numbers.
pub record IsTotal (F : Type 0) ⦃f : Float F⦄ : Type 0 where
  pub total_le_total : (x y : F) → f.total_le x y ≡ false → f.total_le y x ≡ true
  pub total_le_trans :
      (x y z : F) → f.total_le x y ≡ true → f.total_le y z ≡ true → f.total_le x z ≡ true
  pub le_of_total_le :
      (x y : F) → f.is_nan x ≡ false → f.is_nan y ≡ false → f.total_le x y ≡ true → f.le x y ≡ true

-- A number within these bounds, or NaN.
abbrev pub IsWithin : {F : Type 0} → ⦃f : Float F⦄ → F → F → F → Type 0
IsWithin ⦃f⦄ low high x = (f.is_nan x ≡ true) ⊎ ((f.le low x ≡ true) × (f.le x high ≡ true))

module _ {F : Type 0} ⦃f : Float F⦄ (laws : IsOrdered F) where
  open laws use {le_numbers, lt_numbers, lt-eq-not-le, le_of_lt, le_trans}

  pub lt_le_trans : (x y z : F) → f.lt x y ≡ true → f.le y z ≡ true → f.lt x z ≡ true
  lt_le_trans x y z p q = ground (
    arith,
    lt_numbers x y p,
    le_numbers y z q,
    lt-eq-not-le x y,
    lt-eq-not-le x z,
    le_trans y z x q,
  )

  pub le_lt_trans : (x y z : F) → f.le x y ≡ true → f.lt y z ≡ true → f.lt x z ≡ true
  le_lt_trans x y z p q = ground (
    arith,
    le_numbers x y p,
    lt_numbers y z q,
    lt-eq-not-le y z,
    lt-eq-not-le x z,
    le_trans z x y,
  )

  pub le_of_not_lt :
      (x y : F) → f.is_nan x ≡ false → f.is_nan y ≡ false → f.lt x y ≡ false → f.le y x ≡ true
  le_of_not_lt x y p q h = ground (arith, lt-eq-not-le x y p q)

  pub not-le_of_lt : (x y : F) → f.lt x y ≡ true → f.le y x ≡ false
  not-le_of_lt x y h = ground (arith, lt_numbers x y h, lt-eq-not-le x y)

  pub clamp-IsWithin :
      (x low high : F) → f.le low high ≡ true → IsWithin low high (clamp x low high)
  clamp-IsWithin x low high h = elim (Bool-cases (f.is_nan x)) [
    | inl n ↦
        let below : f.lt x low ≡ false = ground (arith, lt_numbers x low) in
        let above : f.lt high x ≡ false = ground (arith, lt_numbers high x) in
        rw (below, above) (inl n)
    | inr n ↦ elim (Bool-cases (f.lt x low)) [
      | inl b ↦ rw b (inr (laws.le_refl low (le_numbers low high h).0, h))
      | inr b ↦
          let low_x : f.le low x ≡ true = le_of_not_lt x low n (le_numbers low high h).0 b in
          elim (Bool-cases (f.lt high x)) [
            | inl a ↦ rw (b, a) (inr (h, laws.le_refl high (le_numbers low high h).1))
            | inr a ↦ rw (b, a) (inr (low_x, le_of_not_lt high x (le_numbers low high h).1 n a))
          ]
    ]
  ]

-- The cast from `f64` to `f32`: it keeps NaN and the order of numbers, and small whole numbers are exact.
pub record IsCast (D F : Type 0) ⦃d : Float D⦄ ⦃f : Float F⦄ (as_f32 : D → F) : Type 0 where
  pub cast_nan : (x : D) → d.is_nan x ≡ true → f.is_nan (as_f32 x) ≡ true
  pub cast_mono : (x y : D) → d.le x y ≡ true → f.le (as_f32 x) (as_f32 y) ≡ true
  pub cast_whole : (n : ℕ) → n < 1000 → as_f32 (d.decimal (n * 10) 1) ≡ f.decimal (n * 10) 1

module _ {D F : Type 0} ⦃d : Float D⦄ ⦃f : Float F⦄ (as_f32 : D → F) where
  pub cast-IsWithin :
      IsCast D F as_f32
      → (m n : ℕ) (x : D) → m < 1000
      → n < 1000
      → IsWithin (d.decimal (m * 10) 1) (d.decimal (n * 10) 1) x
      → IsWithin (f.decimal (m * 10) 1) (f.decimal (n * 10) 1) (as_f32 x)
  cast-IsWithin cast m n x hm hn (inl e) = inl (cast.cast_nan x e)
  cast-IsWithin cast m n x hm hn (inr (low, high)) = inr (
    subst (λ y. f.le y (as_f32 x) ≡ true) (cast.cast_whole m hm) (cast.cast_mono _ x low),
    subst (λ y. f.le (as_f32 x) y ≡ true) (cast.cast_whole n hn) (cast.cast_mono x _ high),
  )
