-- ===== src/Core/Tier/Moves.antt =====
-- When one observation moves the tier that is shown, and when it must.
use mathlib.Core.Path.{subst}
use loadbear.Prelude.{
  Any-last, ℕ, ◌-◌, ◌≤◌, ◌<◌, ◌≡◌, refl, ap, inl, inr, true, false, Option, none, some, Bool, List,
  [], ◌∷◌, ◌++◌, arith, All, Any, All_Any, Any_elim, Any-filter, Any-map, Bool-cases, ltb, leb,
}
use loadbear.Core.Tier.{
  rank, Assessment, Sample, TierTracker, horizon, prune, window, supported_by_all, escalate,
  record_sample, observe,
}
use loadbear.Core.Tier.Window.{Covered, supported_by_all-IsSupported, supported_by_all_total}

-- A tier that rises is the answer for the escalation window, one that falls that for the other.
escalate_rises :
    (w b : Option Assessment) (c seen : Assessment)
    → rank c.tier < rank (escalate w b c seen).tier
    → w ≡ some (escalate w b c seen)
unfolding escalate
escalate_rises w b c seen h = ground arith

escalate_falls :
    (w b : Option Assessment) (c seen : Assessment)
    → rank (escalate w b c seen).tier < rank c.tier
    → b ≡ some (escalate w b c seen)
unfolding escalate
escalate_falls w b c seen h = ground arith

-- A bound on both answers bounds what is shown.
escalate-ge :
    (k : ℕ) (w c seen : Assessment) (b : Option Assessment)
    → k ≤ rank w.tier
    → ((d : Assessment) → b ≡ some d → k ≤ rank d.tier)
    → k ≤ rank (escalate (some w) b c seen).tier
unfolding escalate
escalate-ge k w c seen none p q = ground arith
escalate-ge k w c seen (some b) p q = ground (arith, q b)

escalate-le :
    (k : ℕ) (w : Option Assessment) (c seen b : Assessment)
    → rank b.tier ≤ k
    → ((d : Assessment) → w ≡ some d → rank d.tier ≤ k)
    → rank (escalate w (some b) c seen).tier ≤ k
unfolding escalate
escalate-le k none c seen b p q = ground arith
escalate-le k (some w) c seen b p q = ground (arith, q w)

Any-prune :
    (P : Sample → Type 0) (h : ℕ) (xs : List Sample)
    → Any (λ s. (h ≤ s.0) × P s) xs
    → Any P (prune h xs)
unfolding prune
Any-prune P h [] m = m
Any-prune P h (s ∷ xs) m = elim (Bool-cases (ltb s.0 h)) [
  | inl e ↦ rw e (Any-prune P h xs (later e m))
  | inr e ↦ rw e (Any-map _ _ (λ x q. q.1) (s ∷ xs) m)
]
  where
    later : ltb s.0 h ≡ true → Any (λ s. (h ≤ s.0) × P s) (s ∷ xs) → Any (λ s. (h ≤ s.0) × P s) xs
    later e (inl q) = absurd (ground arith)
    later e (inr q) = q

module _ (t : TierTracker) (seen : Assessment) (now_ms : ℕ) where
  abbrev history : List Sample
  history = record_sample t seen now_ms

  -- The observation itself is in every window.
  seen-mem : (window_ms : ℕ) → Any (λ s. s.1 ≡ seen) (window now_ms window_ms history)
  unfolding record_sample
  seen-mem window_ms =
      Any-filter _ (λ s. s.1 ≡ seen) history
        (Any-prune _ (horizon t.escalate_ms t.settle_ms now_ms) (t.history ++ (now_ms, seen) ∷ []) (
          Any-map _ _ here (t.history ++ (now_ms, seen) ∷ [])
            (Any-last _ t.history (now_ms, seen) refl)))
    where
      here :
          (x : Sample)
          → x ≡ (now_ms, seen)
          → (horizon t.escalate_ms t.settle_ms now_ms ≤ x.0)
            × ((leb (now_ms - window_ms) x.0 ≡ true) × (x.1 ≡ seen))
      here x e =
          let at : x.0 ≡ now_ms = ap (λ s. s.0) e in (omega arith, (ground arith, ap (λ s. s.1) e))

  -- A tier rises only to one that every observation of the escalation window supports, and only where
  -- the history reaches back over the whole window.
  pub observe-rises :
      rank t.current.tier < rank (observe t seen now_ms).1.tier
      → Covered (observe t seen now_ms).0.history now_ms t.escalate_ms
        × All
            (λ s. rank (observe t seen now_ms).1.tier ≤ rank s.1.tier)
            (window now_ms t.escalate_ms (observe t seen now_ms).0.history)
  unfolding observe
  observe-rises h =
      let (covered, s) =
        supported_by_all-IsSupported history now_ms t.escalate_ms true (escalate_rises _ _ _ _ h) in
      (covered, s.by_all)

  -- A tier falls only to one that every observation of the settling window supports, and only where
  -- the history reaches back over the whole window.
  pub observe-falls :
      rank (observe t seen now_ms).1.tier < rank t.current.tier
      → Covered (observe t seen now_ms).0.history now_ms t.settle_ms
        × All
            (λ s. rank s.1.tier ≤ rank (observe t seen now_ms).1.tier)
            (window now_ms t.settle_ms (observe t seen now_ms).0.history)
  unfolding observe
  observe-falls h =
      let (covered, s) =
        supported_by_all-IsSupported history now_ms t.settle_ms false (escalate_falls _ _ _ _ h) in
      (covered, s.by_all)

  -- What holds of all of a window holds of the observation just made.
  of_window :
      (P : Assessment → Type 0) (window_ms : ℕ)
      → All (λ s. P s.1) (window now_ms window_ms history)
      → P seen
  of_window P window_ms p =
      Any_elim _ (λ s h. subst P h.1 h.0) _ (All_Any _ _ _ p (seen-mem window_ms))

  -- An answer for a window is an assessment with the bounds of the window.
  answer-ge :
      (k window_ms : ℕ) (d : Assessment)
      → k ≤ rank seen.tier
      → supported_by_all history now_ms window_ms false ≡ some d
      → k ≤ rank d.tier
  answer-ge k window_ms d h e =
      let (_, s) = supported_by_all-IsSupported history now_ms window_ms false e in
      omega (arith, of_window (λ a. rank a.tier ≤ rank d.tier) window_ms s.by_all)

  answer-le :
      (k window_ms : ℕ) (d : Assessment)
      → rank seen.tier ≤ k
      → supported_by_all history now_ms window_ms true ≡ some d
      → rank d.tier ≤ k
  answer-le k window_ms d h e =
      let (_, s) = supported_by_all-IsSupported history now_ms window_ms true e in
      omega (arith, of_window (λ a. rank d.tier ≤ rank a.tier) window_ms s.by_all)

  answer :
      (window_ms : ℕ) (worst : Bool)
      → Covered history now_ms window_ms
      → (c : Assessment) × (supported_by_all history now_ms window_ms worst ≡ some c)
  answer window_ms worst covered = cases (window now_ms window_ms history) refl
    where
      cases :
          (xs : List Sample)
          → window now_ms window_ms history ≡ xs
          → (c : Assessment) × (supported_by_all history now_ms window_ms worst ≡ some c)
      cases [] e = absurd (subst (Any (λ s. s.1 ≡ seen)) e (seen-mem window_ms))
      cases (s ∷ xs) e = supported_by_all_total history now_ms window_ms worst s xs covered e

  -- Once the escalation window is covered and every observation in it is at least as bad as `k`, what
  -- is shown is at least as bad as `k`.
  pub observe_sustained :
      (k : ℕ)
      → Covered (observe t seen now_ms).0.history now_ms t.escalate_ms
      → All (λ s. k ≤ rank s.1.tier) (window now_ms t.escalate_ms (observe t seen now_ms).0.history)
      → k ≤ rank (observe t seen now_ms).1.tier
  unfolding observe
  observe_sustained k covered all =
      let (c, e) = answer t.escalate_ms true covered in
      let (_, s) = supported_by_all-IsSupported history now_ms t.escalate_ms true e in
      let bound : k ≤ rank c.tier =
        Any_elim _ (λ u h. subst (λ a. k ≤ rank a.tier) h.1 h.0) _ (All_Any _ _ _ all s.from_one) in
      let now = of_window (λ a. k ≤ rank a.tier) t.escalate_ms all in
      rw e (escalate-ge k c t.current seen _ bound (λ d. answer-ge k t.settle_ms d now))

  -- Once the settling window is covered and no observation in it is worse than `k`, what is shown is
  -- no worse than `k`.
  pub observe_recovered :
      (k : ℕ)
      → Covered (observe t seen now_ms).0.history now_ms t.settle_ms
      → All (λ s. rank s.1.tier ≤ k) (window now_ms t.settle_ms (observe t seen now_ms).0.history)
      → rank (observe t seen now_ms).1.tier ≤ k
  unfolding observe
  observe_recovered k covered all =
      let (c, e) = answer t.settle_ms false covered in
      let (_, s) = supported_by_all-IsSupported history now_ms t.settle_ms false e in
      let bound : rank c.tier ≤ k =
        Any_elim _ (λ u h. subst (λ a. rank a.tier ≤ k) h.1 h.0) _ (All_Any _ _ _ all s.from_one) in
      let now = of_window (λ a. rank a.tier ≤ k) t.settle_ms all in
      rw e (escalate-le k _ t.current seen c bound (λ d. answer-le k t.escalate_ms d now))
