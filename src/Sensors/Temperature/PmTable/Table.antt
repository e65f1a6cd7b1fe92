-- ===== src/Sensors/Temperature/PmTable/Table.antt =====
-- The words of the table.
use loadbear.Prelude.{
  ℕ, zero, suc, min, ◌+◌, ◌*◌, ◌/◌, ◌%◌, ◌^◌, ◌≤◌, ◌<◌, ◌≡◌, refl, ap, inl, inr, false, Option,
  none, some, List, [], ◌∷◌, All, All-filter, length, get_elem?, filter, filter_map, Bool-cases,
  Option-cases, if◌then◌else◌, ◌>>=◌, arith, Bool, filter_map-cons_none, filter_map-cons_some,
}
use loadbear.Float.{Float}
use loadbear.Sensors.Temperature.Registers.{Answer, ok, err, is_plausible_celsius}
use loadbear.Sensors.Temperature.Credible.{IsPlausible}
use loadbear.Sensors.Temperature.PmTable.{
  PerCoreTemperature, core_temp_count, core_temp_index, range, float_at, words_of, refreshed, read,
}

-- Numbers of 32 bits, two to a word, the first in the low half.
abbrev pub packed : List ℕ → List ℕ
packed [] = []
packed (a ∷ []) = a ∷ []
packed (a ∷ b ∷ bits) = (a + b * 2 ^ 32) ∷ packed bits

module _ {A : Type 0} (p : A → Bool) where
  length-filter : (xs : List A) → length (filter p xs) ≤ length xs
  length-filter [] = omega arith
  length-filter (x ∷ xs) = ground (arith, length-filter xs)

length-filter_map :
    {A B : Type 0} (g : A → Option B) (xs : List A) → length (filter_map g xs) ≤ length xs
length-filter_map g [] = omega arith
length-filter_map g (x ∷ xs) = elim (Option-cases (g x)) [
  | inl e ↦ rw (filter_map-cons_none g x xs e) (omega (arith, length-filter_map g xs))
  | inr (b, e) ↦ rw (filter_map-cons_some g x xs e) (omega (arith, length-filter_map g xs))
]

length-range : (i n : ℕ) → length (range i n) ≡ n
length-range i zero = refl
length-range i (suc n) = ap suc (length-range (suc i) n)

module _ {F : Type 0} ⦃f : Float F⦄ (from_bits : ℕ → F) where
  -- A number, where it is finite.
  abbrev pub finite : ℕ → Option F
  finite bits = if f.is_finite (from_bits bits) then some (from_bits bits) else none

  -- What was packed into words is found again: at each index, the number that was put there, where it is
  -- finite, and nothing behind the last.
  pub float_at-packed :
      (bits : List ℕ) (i : ℕ)
      → All (λ b. b < 2 ^ 32) bits
      → (i < length bits)
      → float_at from_bits (packed bits) i ≡ (do b ← get_elem? bits i; finite b)
  unfolding float_at
  float_at-packed [] i a h = absurd (omega arith)
  float_at-packed (b ∷ []) zero a h = let e : b / 1 % 2 ^ 32 ≡ b = omega (arith, a.0) in rw e refl
  float_at-packed (b ∷ []) (suc i) a h = absurd (omega arith)
  float_at-packed (b ∷ c ∷ bits) zero a h =
      let e : (b + c * 2 ^ 32) / 1 % 2 ^ 32 ≡ b = omega (arith, a.0) in rw e refl
  float_at-packed (b ∷ c ∷ bits) (suc zero) a h =
      let e : (b + c * 2 ^ 32) / 2 ^ 32 % 2 ^ 32 ≡ c = omega (arith, a.0, a.1.0) in rw e refl
  float_at-packed (b ∷ c ∷ bits) (suc (suc i)) a h =
      let q : suc (suc i) / 2 ≡ suc (i / 2) = omega arith in
      let r : suc (suc i) % 2 ≡ i % 2 = omega arith in
      rw (q, r) (float_at-packed bits i a.1.1 (omega arith))

  words_of-AllPlausible :
      (core_count : ℕ) (a : Answer)
      → All IsPlausible (words_of from_bits core_count a)
        × (length (words_of from_bits core_count a) ≤ core_temp_count)
  unfolding words_of
  words_of-AllPlausible core_count (err e) = (tt, omega arith)
  words_of-AllPlausible core_count (ok words) =
      let indices = range 0 (min core_count core_temp_count) in
      let g = λ (i : ℕ). float_at from_bits words (core_temp_index + i) in
      (
        All-filter is_plausible_celsius (filter_map g indices),
        omega (
          arith,
          length-filter is_plausible_celsius (filter_map g indices),
          length-filter_map g indices,
          length-range 0 (min core_count core_temp_count),
        ),
      )

  -- A table gives at most eight values, all of them plausible, and none where its layout is not known.
  pub read-AllPlausible :
      (pc : PerCoreTemperature) (core_count : ℕ)
      → All IsPlausible (read from_bits pc core_count)
        × (length (read from_bits pc core_count) ≤ core_temp_count)
        × (pc.supported ≡ false → read from_bits pc core_count ≡ [])
  unfolding read refreshed
  read-AllPlausible pc core_count = elim (Bool-cases pc.supported) [
    | inl e ↦
        let s = of_refresh (pc.execute "ioctl_update_pm_table" [] 0) in
        rw e (s.0, s.1, λ h. absurd (cc (h)))
    | inr e ↦ rw e (tt, omega arith, λ h. refl)
  ]
    where
      of_refresh :
          (a : Answer)
          → All IsPlausible (refreshed from_bits pc.execute core_count a)
            × (length (refreshed from_bits pc.execute core_count a) ≤ core_temp_count)
      of_refresh (err e) = (tt, omega arith)
      of_refresh (ok ws) = words_of-AllPlausible core_count _
