-- ===== src/Sensors/Baseline/Median.antt =====
-- The median of the window, and when there is one.
use mathlib.Core.Path.{subst}
use loadbear.Prelude.{
  ◌>>=◌, ℕ, zero, suc, ◌/◌, ◌<◌, ◌≤◌, ◌≡◌, refl, ◌∙◌, inl, inr, true, false, Option, none, some,
  List, [], ◌∷◌, arith, All, Bool-cases, length, get_elem?, sort_by, All-sort_by, length-sort_by,
  ltb, leb, is_some,
}
use loadbear.Float.{Float}
use loadbear.Sensors.Baseline.{
  DiskBaseline, min_samples, is_usable, in_order, median, saturation_point,
}

get_elem?-is_some :
    {A : Type 0} (xs : List A) (i : ℕ) → i < length xs → is_some (get_elem? xs i) ≡ true
get_elem?-is_some [] i h = absurd (omega arith)
get_elem?-is_some (x ∷ xs) zero h = refl
get_elem?-is_some (x ∷ xs) (suc i) h = get_elem?-is_some xs i (omega arith)

get_elem?-All :
    {A : Type 0} (P : A → Type 0) (xs : List A) (i : ℕ) (y : A)
    → All P xs
    → get_elem? xs i ≡ some y
    → P y
get_elem?-All P [] i y h e = cc
get_elem?-All P (x ∷ xs) zero y h e = let e' : x ≡ y = cc in subst P e' h.0
get_elem?-All P (x ∷ xs) (suc i) y h e = get_elem?-All P xs i y h.1 e

is_some-map :
    {A B : Type 0} (g : A → B) (o : Option A) → is_some (o >>= λ a. some (g a)) ≡ is_some o
is_some-map g none = refl
is_some-map g (some a) = refl

half_in_bounds : (n : ℕ) → 120 ≤ n → n / 2 < n
half_in_bounds n h = omega arith

module _ {D : Type 0} ⦃d : Float D⦄ (b : DiskBaseline D) where
  -- There is a saturation point exactly from 120 samples on: the index of the median is in bounds.
  pub saturation_point-is_some : is_some (saturation_point b) ≡ leb min_samples (length b.samples)
  unfolding saturation_point median
  saturation_point-is_some = elim (Bool-cases (ltb (length b.samples) min_samples)) [
    | inl e ↦ rw e (ground arith)
    | inr e ↦ rw e (
        is_some-map _ _
        ∙ get_elem?-is_some (sort_by in_order b.samples) _
            (half_in_bounds _ (omega (arith, length-sort_by in_order b.samples, enough e)))
        ∙ ground arith)
  ]
    where
      enough : ltb (length b.samples) min_samples ≡ false → min_samples ≤ length b.samples
      enough e = ground arith

  -- The median of a window whose samples are usable is usable, so no saturation point is drawn from
  -- nothing.
  pub median-is_usable :
      (m : D) → All (λ v. is_usable v ≡ true) b.samples → median b ≡ some m → is_usable m ≡ true
  unfolding median
  median-is_usable m w e = elim (Bool-cases (ltb (length b.samples) min_samples)) [
    | inl q ↦ absurd (cc (rw q at e))
    | inr q ↦ get_elem?-All _ _ _ m (All-sort_by in_order _ b.samples w) (rw q at e)
  ]
