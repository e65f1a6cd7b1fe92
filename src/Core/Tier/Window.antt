-- ===== src/Core/Tier/Window.antt =====
-- `supported_by_all` against the window that it looks at.
use mathlib.Core.Path.{subst}
use mathlib.Core.Option.{some-injective}
use loadbear.Prelude.{
  ℕ, ◌-◌, ◌≤◌, ◌≡◌, refl, sym, ◌∙◌, ◌⊎◌, inl, inr, Bool, true, false, none, some, List, [], ◌∷◌,
  foldl, arith, All, Any, Bool-cases, ltb,
}
use loadbear.Core.Tier.{rank, Assessment, Sample, choose, window, supported_by_all}

-- One tier supports another: as the worst of a window it is below, as the best above.
abbrev pub Supports : Bool → Assessment → Assessment → Type 0
Supports true a c = rank c.tier ≤ rank a.tier
Supports false a c = rank a.tier ≤ rank c.tier

-- The oldest observation stands at the start of the window or before it.
abbrev pub Covered : List Sample → ℕ → ℕ → Type 0
Covered [] now_ms window_ms = ⊥
Covered (s ∷ rest) now_ms window_ms = s.0 ≤ now_ms - window_ms

-- What an answer for a window says.
pub record IsSupported (worst : Bool) (xs : List Sample) (c : Assessment) : Type 0 where
  pub by_all : All (λ s. Supports worst s.1 c) xs
  pub from_one : Any (λ s. s.1 ≡ c) xs

choose-some :
    (worst : Bool) (c : Assessment) (s : Sample)
    → (d : Assessment) × (choose worst (some c) s ≡ some d)
      × Supports worst c d
      × Supports worst s.1 d
      × ((d ≡ c) ⊎ (s.1 ≡ d))
unfolding choose
choose-some true c s = elim (Bool-cases (ltb (rank s.1.tier) (rank c.tier))) [
  | inl e ↦ (s.1, rw e, ground arith, ground arith, inr refl)
  | inr e ↦ (c, rw e, ground arith, ground arith, inl refl)
]
choose-some false c s = elim (Bool-cases (ltb (rank c.tier) (rank s.1.tier))) [
  | inl e ↦ (s.1, rw e, ground arith, ground arith, inr refl)
  | inr e ↦ (c, rw e, ground arith, ground arith, inl refl)
]

Supports-trans :
    (worst : Bool) (a b c : Assessment)
    → Supports worst a b
    → Supports worst b c
    → Supports worst a c
Supports-trans true a b c p q = omega arith
Supports-trans false a b c p q = omega arith

origin :
    {b c d : Assessment} (s : Sample) (xs : List Sample)
    → (b ≡ c) ⊎ (s.1 ≡ b)
    → (d ≡ b) ⊎ Any (λ u. u.1 ≡ d) xs
    → (d ≡ c) ⊎ Any (λ u. u.1 ≡ d) (s ∷ xs)
origin s xs (inl p) (inl q) = inl (q ∙ p)
origin s xs (inr p) (inl q) = inr (inl (p ∙ sym q))
origin s xs p (inr q) = inr (inr q)

foldl-choose :
    (worst : Bool) (c : Assessment) (xs : List Sample)
    → (d : Assessment) × (foldl (choose worst) (some c) xs ≡ some d)
      × Supports worst c d
      × All (λ s. Supports worst s.1 d) xs
      × ((d ≡ c) ⊎ Any (λ s. s.1 ≡ d) xs)
foldl-choose true c [] = (c, refl, omega arith, tt, inl refl)
foldl-choose false c [] = (c, refl, omega arith, tt, inl refl)
foldl-choose worst c (s ∷ xs) =
    let (b, eb, cb, sb, ob) = choose-some worst c s in
    let (d, ed, bd, all, od) = foldl-choose worst b xs in
    (
      d,
      rw eb ed,
      Supports-trans worst c b d cb bd,
      (Supports-trans worst s.1 b d sb bd, all),
      origin s xs ob od,
    )

-- Over a window with an observation in it the loop ends in a supported assessment.
choose_window :
    (worst : Bool) (xs : List Sample) {c : Assessment}
    → foldl (choose worst) none xs ≡ some c
    → IsSupported worst xs c
unfolding choose
choose_window worst [] e = cc
choose_window worst (s ∷ xs) {c} e =
    let (d, ed, sd, all, od) = foldl-choose worst s.1 xs in
    let same : d ≡ c = some-injective _ _ (sym ed ∙ e) in
    subst (IsSupported worst (s ∷ xs)) same (record { by_all = (sd, all); from_one = first od })
  where
    first : {d : Assessment} → (d ≡ s.1) ⊎ Any (λ u. u.1 ≡ d) xs → Any (λ u. u.1 ≡ d) (s ∷ xs)
    first (inl p) = inl (sym p)
    first (inr q) = inr q

choose_window_total :
    (worst : Bool) (s : Sample) (xs : List Sample)
    → (c : Assessment) × (foldl (choose worst) none (s ∷ xs) ≡ some c)
unfolding choose
choose_window_total worst s xs = let (d, ed, _, _, _) = foldl-choose worst s.1 xs in (d, ed)

-- An answer is supported by the whole window, which is covered.
pub supported_by_all-IsSupported :
    (history : List Sample) (now_ms window_ms : ℕ) (worst : Bool) {c : Assessment}
    → supported_by_all history now_ms window_ms worst ≡ some c
    → Covered history now_ms window_ms × IsSupported worst (window now_ms window_ms history) c
unfolding supported_by_all
supported_by_all-IsSupported [] now_ms window_ms worst e = cc
supported_by_all-IsSupported (oldest ∷ rest) now_ms window_ms worst e =
    elim (Bool-cases (ltb (now_ms - window_ms) oldest.0)) [
      | inl h ↦ absurd (cc (rw h at e))
      | inr h ↦ (ground arith, choose_window worst _ (rw h at e))
    ]

-- A covered window with an observation in it has an answer.
pub supported_by_all_total :
    (history : List Sample) (now_ms window_ms : ℕ) (worst : Bool) (s : Sample) (xs : List Sample)
    → Covered history now_ms window_ms
    → window now_ms window_ms history ≡ s ∷ xs
    → (c : Assessment) × (supported_by_all history now_ms window_ms worst ≡ some c)
unfolding supported_by_all
supported_by_all_total [] now_ms window_ms worst s xs covered e = absurd covered
supported_by_all_total (oldest ∷ rest) now_ms window_ms worst s xs covered e =
    let test : ltb (now_ms - window_ms) oldest.0 ≡ false = ground arith in
    let (c, q) = choose_window_total worst s xs in
    (c, rw test (subst (λ ys. foldl (choose worst) none ys ≡ some c) (sym e) q))
