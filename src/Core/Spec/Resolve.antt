-- ===== src/Core/Spec/Resolve.antt =====
-- What `resolve` finds: when there is a match, what it counts, and when it may name a product.
use mathlib.Core.Path.{subst}
use mathlib.Core.Option.{some-injective}
use loadbear.Prelude.{
  ℕ, ◌≡◌, refl, sym, ap, ◌∙◌, ◌↔◌, ◌⊎◌, inl, inr, true, false, none, some, List, [], ◌∷◌, arith,
  ◌==◌, All, Any, All-filter_of_All, Any-of_Any-filter, Any-map, filter-eq-nil,
  All_of_filter-eq-nil, length, filter,
}
use loadbear.Float.{Float}
use loadbear.Core.Spec.{
  CpuKey, CpuSpec, SpecDb, SpecMatch, same_part, is_exact, conservative, narrow, candidates,
  match_of, resolve,
}

module _ {F : Type 0} (threads : ℕ) where
  -- The candidates are those with the thread count, unless there are none of them.
  narrow-cases :
      (ss : List (CpuSpec F))
      → (narrow threads ss ≡ filter (λ s. s.threads == threads) ss)
        ⊎ ((narrow threads ss ≡ ss) × (filter (λ s. s.threads == threads) ss ≡ []))
  unfolding narrow
  narrow-cases ss = ground arith

  narrow-eq-nil : (ss : List (CpuSpec F)) → narrow threads ss ≡ [] → ss ≡ []
  unfolding narrow
  narrow-eq-nil ss e = ground arith

  narrow-All :
      (P : CpuSpec F → Type 0) (ss : List (CpuSpec F)) → All P ss → All P (narrow threads ss)
  narrow-All P ss h = elim (narrow-cases ss) [
    | inl e ↦ rw e (All-filter_of_All _ P ss h)
    | inr e ↦ rw e.0 h
  ]

  narrow-Any :
      (P : CpuSpec F → Type 0) (ss : List (CpuSpec F)) → Any P (narrow threads ss) → Any P ss
  narrow-Any P ss h = elim (narrow-cases ss) [
    | inl e ↦ Any-map _ _ (λ x q. q.1) ss (Any-of_Any-filter _ P ss (rw e at h))
    | inr e ↦ rw e.0 at h
  ]

module _ {F : Type 0} ⦃f : Float F⦄ where
  match_of-some :
      (ss : List (CpuSpec F)) (m : SpecMatch F)
      → match_of ss ≡ some m
      → (s : CpuSpec F) × (rest : List (CpuSpec F)) × (ss ≡ s ∷ rest)
        × (m ≡ record { spec = conservative s rest; candidates = length ss })
  unfolding match_of
  match_of-some [] m e = cc
  match_of-some (s ∷ rest) m e = (s, rest, refl, sym (some-injective _ _ e))

  match_of-none : (ss : List (CpuSpec F)) → match_of ss ≡ none → ss ≡ []
  unfolding match_of
  match_of-none [] e = refl
  match_of-none (s ∷ rest) e = cc

  -- One candidate is handed on unchanged.
  match_of-exact :
      (ss : List (CpuSpec F)) (m : SpecMatch F)
      → match_of ss ≡ some m
      → is_exact m ≡ true
      → m.spec ∷ [] ≡ ss
  unfolding match_of is_exact
  match_of-exact [] m e h = cc
  match_of-exact (s ∷ []) m e h = ap (λ n. n.spec ∷ []) (sym (some-injective _ _ e))
  match_of-exact (s ∷ t ∷ rest) m e h = absurd (ground arith)

  module _ (db : SpecDb F) (k : CpuKey) (threads : ℕ) where
    -- The candidates of a match, of which the first gives what is not merged.
    pub resolve-some :
        (m : SpecMatch F)
        → resolve db k threads ≡ some m
        → (s : CpuSpec F) × (rest : List (CpuSpec F)) × (candidates db k threads ≡ s ∷ rest)
          × (m ≡ record {
            spec = conservative s rest;
            candidates = length (candidates db k threads);
          })
    unfolding resolve
    resolve-some m e = match_of-some _ m e

    pub resolve-spec_eq :
        (m : SpecMatch F) (s : CpuSpec F) (rest : List (CpuSpec F))
        → resolve db k threads ≡ some m
        → candidates db k threads ≡ s ∷ rest
        → m.spec ≡ conservative s rest
    resolve-spec_eq m s rest e c =
        let (s', rest', c', em) = resolve-some m e in
        rw em (same_parts s' rest' s rest (sym c' ∙ c))
      where
        same_parts :
            (s' : CpuSpec F) (rest' : List (CpuSpec F)) (s : CpuSpec F) (rest : List (CpuSpec F))
            → s' ∷ rest' ≡ s ∷ rest
            → conservative s' rest' ≡ conservative s rest
        same_parts s' rest' s rest e = cc

    -- `resolve` gives no match exactly when no entry has the vendor, family and model of the key.
    pub resolve-none_iff :
        (resolve db k threads ≡ none) ↔ All (λ s. same_part k s ≡ false) db.entries
    unfolding resolve narrow
    resolve-none_iff = (
      λ e. All_of_filter-eq-nil _ db.entries (narrow-eq-nil threads _ (match_of-none _ e)),
      λ h. rw (filter-eq-nil _ db.entries h),
    )

    -- An exact match is an entry of the database itself, with the vendor, family and model of the
    -- key, and nothing merged into it.
    pub resolve-is_exact :
        (m : SpecMatch F)
        → resolve db k threads ≡ some m
        → is_exact m ≡ true
        → Any (λ s. (same_part k s ≡ true) × (s ≡ m.spec)) db.entries
    unfolding resolve is_exact
    resolve-is_exact m e h =
        Any-of_Any-filter (same_part k) (λ s. s ≡ m.spec) db.entries
          (narrow-Any threads (λ s. s ≡ m.spec) _
            (subst (Any (λ s. s ≡ m.spec)) (match_of-exact _ m e h) (inl refl)))
