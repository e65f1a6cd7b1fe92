-- ===== src/Prelude/Filters.antt =====
-- What holds of the elements of a filtered list, and of a list whose filtered list is empty.
use mathlib.Core.Path.{◌≡◌, refl}
use mathlib.Core.Logic.{inl, inr}
use mathlib.Core.Bool.{Bool, true, false}
use mathlib.Core.List.{List, [], ◌∷◌}
use native.Mathlib.Omega.{arith}
use loadbear.Prelude.Tests.{Bool-cases}
use loadbear.Prelude.Lists.{filter, All, Any}

module _ {A : Type 0} (p : A → Bool) where
  pub All-filter : (xs : List A) → All (λ x. p x ≡ true) (filter p xs)
  All-filter [] = tt
  All-filter (x ∷ xs) = elim (Bool-cases (p x)) [
    | inl e ↦ rw (e, filter) (e, All-filter xs)
    | inr e ↦ rw (e, filter) (All-filter xs)
  ]

  pub All-filter_of_All : (P : A → Type 0) (xs : List A) → All P xs → All P (filter p xs)
  All-filter_of_All P [] h = tt
  All-filter_of_All P (x ∷ xs) h = elim (Bool-cases (p x)) [
    | inl e ↦ rw (e, filter) (h.0, All-filter_of_All P xs h.1)
    | inr e ↦ rw (e, filter) (All-filter_of_All P xs h.1)
  ]

  pub Any-of_Any-filter :
      (P : A → Type 0) (xs : List A) → Any P (filter p xs) → Any (λ x. (p x ≡ true) × P x) xs
  Any-of_Any-filter P [] h = h
  Any-of_Any-filter P (x ∷ xs) h = elim (Bool-cases (p x)) [
    | inl e ↦
        let h' = rw (e, filter) at h in
        elim h' [ inl q ↦ inl (e, q) | inr q ↦ inr (Any-of_Any-filter P xs q) ]
    | inr e ↦ inr (Any-of_Any-filter P xs (rw (e, filter) at h))
  ]

  pub Any-filter :
      (P : A → Type 0) (xs : List A) → Any (λ x. (p x ≡ true) × P x) xs → Any P (filter p xs)
  Any-filter P [] h = h
  Any-filter P (x ∷ xs) (inl (e, q)) = rw (e, filter) (inl q)
  Any-filter P (x ∷ xs) (inr h) = elim (Bool-cases (p x)) [
    | inl e ↦ rw (e, filter) (inr (Any-filter P xs h))
    | inr e ↦ rw (e, filter) (Any-filter P xs h)
  ]

  pub filter-eq-nil : (xs : List A) → All (λ x. p x ≡ false) xs → filter p xs ≡ []
  filter-eq-nil [] h = refl
  filter-eq-nil (x ∷ xs) h = rw (h.0, filter) (filter-eq-nil xs h.1)

  pub All_of_filter-eq-nil : (xs : List A) → filter p xs ≡ [] → All (λ x. p x ≡ false) xs
  All_of_filter-eq-nil [] e = tt
  All_of_filter-eq-nil (x ∷ xs) e = elim (Bool-cases (p x)) [
    | inl h ↦ absurd (ground arith)
    | inr h ↦ (h, All_of_filter-eq-nil xs (rw (h, filter) at e))
  ]
