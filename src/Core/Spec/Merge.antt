-- ===== src/Core/Spec/Merge.antt =====
-- What `conservative` keeps of its candidates: each merged figure against those of the candidates.
use mathlib.Core.Path.{subst}
use mathlib.Core.Option.{some-injective}
use loadbear.Prelude.{
  ℕ, ◌≤◌, ◌<◌, ◌≡◌, refl, sym, ◌∙◌, ap, min, max, true, Option, none, some, List, [], ◌∷◌, map,
  foldl, arith, All, filter_map, filter_map-cons_none, filter_map-cons_some, All_zip, All_map,
  Option-cases, inl, inr, is_some, unwrap_or,
}
use loadbear.Float.{Float}
use loadbear.Core.Spec.{CpuSpec, minimum, maximum, conservative}

foldl-min-le : (x : ℕ) (xs : List ℕ) → (foldl min x xs ≤ x) × All (λ y. foldl min x xs ≤ y) xs
foldl-min-le x [] = (omega arith, tt)
foldl-min-le x (y ∷ ys) = let (h, t) = foldl-min-le (min x y) ys in (omega arith, (omega arith, t))

foldl-max-le : (x : ℕ) (xs : List ℕ) → (x ≤ foldl max x xs) × All (λ y. y ≤ foldl max x xs) xs
foldl-max-le x [] = (omega arith, tt)
foldl-max-le x (y ∷ ys) = let (h, t) = foldl-max-le (max x y) ys in (omega arith, (omega arith, t))

minimum-le : (xs : List ℕ) (v : ℕ) → minimum xs ≡ some v → All (λ y. v ≤ y) xs
minimum-le [] v e = tt
minimum-le (x ∷ xs) v e =
    subst (λ w. All (λ y. w ≤ y) (x ∷ xs)) (some-injective _ _ e) (foldl-min-le x xs)

le-maximum : (xs : List ℕ) (v : ℕ) → maximum xs ≡ some v → All (λ y. y ≤ v) xs
le-maximum [] v e = tt
le-maximum (x ∷ xs) v e =
    subst (λ w. All (λ y. y ≤ w) (x ∷ xs)) (some-injective _ _ e) (foldl-max-le x xs)

module _ {A : Type 0} (g : A → Option ℕ) where
  -- A bound on the figures that are known.
  abbrev Known : (ℕ → Type 0) → A → Type 0
  Known P s = (v : ℕ) → g s ≡ some v → P v

  All-Known : (P : ℕ → Type 0) (ss : List A) → All P (filter_map g ss) → All (Known P) ss
  All-Known P [] p = tt
  All-Known P (s ∷ ss) p = elim (Option-cases (g s)) [
    | inl e ↦ (λ v q. cc, All-Known P ss (rw (filter_map-cons_none g s ss e) at p))
    | inr (v, e) ↦
        let q = rw (filter_map-cons_some g s ss e) at p in
        (λ w h. subst P (some-injective _ _ (sym e ∙ h)) q.0, All-Known P ss q.1)
  ]

  -- Where every figure is known, and there is one, there is a least and a greatest.
  some-filter_map :
      (s : A) (ss : List A)
      → All (λ t. is_some (g t) ≡ true) (s ∷ ss)
      → (x : ℕ) × (xs : List ℕ) × (filter_map g (s ∷ ss) ≡ x ∷ xs)
  some-filter_map s ss p = elim (Option-cases (g s)) [
    | inl e ↦ absurd (ground arith)
    | inr (v, e) ↦ (v, filter_map g ss, filter_map-cons_some g s ss e)
  ]

  pub minimum-filter_map :
      (s : A) (ss : List A)
      → All (λ t. is_some (g t) ≡ true) (s ∷ ss)
      → (m : ℕ) × (minimum (filter_map g (s ∷ ss)) ≡ some m) × All (Known (λ v. m ≤ v)) (s ∷ ss)
  minimum-filter_map s ss p =
      let (x, xs, e) = some-filter_map s ss p in
      let q : minimum (filter_map g (s ∷ ss)) ≡ some (foldl min x xs) = ap minimum e in
      (foldl min x xs, q, All-Known _ (s ∷ ss) (minimum-le _ _ q))

  pub maximum-filter_map :
      (s : A) (ss : List A)
      → All (λ t. is_some (g t) ≡ true) (s ∷ ss)
      → (m : ℕ) × (maximum (filter_map g (s ∷ ss)) ≡ some m) × All (Known (λ v. v ≤ m)) (s ∷ ss)
  maximum-filter_map s ss p =
      let (x, xs, e) = some-filter_map s ss p in
      let q : maximum (filter_map g (s ∷ ss)) ≡ some (foldl max x xs) = ap maximum e in
      (foldl max x xs, q, All-Known _ (s ∷ ss) (le-maximum _ _ q))

module _ {F : Type 0} ⦃f : Float F⦄ where
  -- The power band that the verdicts of a specification are judged by.
  abbrev pub ceiling_watts : CpuSpec F → ℕ
  ceiling_watts s = unwrap_or s.ctdp_max_watts s.tdp_watts

  abbrev pub floor_watts : CpuSpec F → ℕ
  floor_watts s = unwrap_or s.ctdp_min_watts s.tdp_watts

  All_of_map :
      (g : CpuSpec F → ℕ) (P : ℕ → Type 0) (ss : List (CpuSpec F))
      → All P (map g ss)
      → All (λ s. P (g s)) ss
  All_of_map g P [] p = tt
  All_of_map g P (s ∷ ss) p = (p.0, All_of_map g P ss p.1)

  -- The merged base clock is no candidate's more than its own.
  pub conservative-base :
      (s : CpuSpec F) (ss : List (CpuSpec F))
      → All (λ t. (conservative s ss).base_mhz ≤ t.base_mhz) (s ∷ ss)
  unfolding conservative
  conservative-base s [] = (omega arith, tt)
  conservative-base s (t ∷ ts) =
      All_of_map (λ u. u.base_mhz) _ (s ∷ t ∷ ts)
        (minimum-le (map (λ u. u.base_mhz) (s ∷ t ∷ ts)) _ refl)

  -- Where every candidate publishes the end of its band, the merged band is as wide as each.
  pub conservative-ceiling :
      (s : CpuSpec F) (ss : List (CpuSpec F))
      → All (λ t. is_some t.ctdp_max_watts ≡ true) (s ∷ ss)
      → All (λ t. ceiling_watts t ≤ ceiling_watts (conservative s ss)) (s ∷ ss)
  unfolding conservative
  conservative-ceiling s [] p = (omega arith, tt)
  conservative-ceiling s (t ∷ ts) p =
      let (m, e, q) = maximum-filter_map (λ u. u.ctdp_max_watts) s (t ∷ ts) p in
      All_map _ _ (λ u (h, k). ground (arith, k (ceiling_watts u))) (s ∷ t ∷ ts)
        (All_zip _ _ (s ∷ t ∷ ts) p q)

  pub conservative-floor :
      (s : CpuSpec F) (ss : List (CpuSpec F))
      → All (λ t. is_some t.ctdp_min_watts ≡ true) (s ∷ ss)
      → All (λ t. floor_watts (conservative s ss) ≤ floor_watts t) (s ∷ ss)
  unfolding conservative
  conservative-floor s [] p = (omega arith, tt)
  conservative-floor s (t ∷ ts) p =
      let (m, e, q) = minimum-filter_map (λ u. u.ctdp_min_watts) s (t ∷ ts) p in
      All_map _ _ (λ u (h, k). ground (arith, k (floor_watts u))) (s ∷ t ∷ ts)
        (All_zip _ _ (s ∷ t ∷ ts) p q)

  -- The ceiling merged from two ratings alone is the smaller of them.
  pub conservative-rating :
      (s t : CpuSpec F)
      → s.ctdp_max_watts ≡ none
      → t.ctdp_max_watts ≡ none
      → s.tdp_watts < t.tdp_watts
      → ceiling_watts (conservative s (t ∷ [])) ≡ s.tdp_watts
  unfolding conservative
  conservative-rating s t es et less = rw (es, et) (omega arith)
