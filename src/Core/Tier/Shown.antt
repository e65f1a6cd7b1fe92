-- ===== src/Core/Tier/Shown.antt =====
-- What a tracker shows, against the observations that it was given.
use mathlib.Core.Path.{subst}
use loadbear.Prelude.{
  ℕ, ◌≡◌, refl, ◌⊎◌, inl, inr, Bool, true, false, Option, none, some, List, [], ◌∷◌, arith, All,
  Any, All_map, All-append, All_Any, All_Any_refl, Any_elim, All-filter_of_All, Bool-cases, ltb,
  ◌==◌,
}
use loadbear.Core.Tier.{
  Tier, rank, Assessment, Sample, TierTracker, start, untroubled, prune, supported_by_all, refresh,
  settle, escalate, record_sample, observe, observe_all,
}
use loadbear.Core.Tier.Window.{supported_by_all-IsSupported}

rank-injective : (a b : Tier) → rank a ≡ rank b → a ≡ b
rank-injective a b h = ground arith

pub All-prune : (P : Sample → Type 0) (h : ℕ) (xs : List Sample) → All P xs → All P (prune h xs)
unfolding prune
All-prune P h [] p = tt
All-prune P h (s ∷ xs) p = elim (Bool-cases (ltb s.0 h)) [
  | inl e ↦ rw e (All-prune P h xs p.1)
  | inr e ↦ rw e p
]

module _ (P : Assessment → Type 0) where
  abbrev Answer : Option Assessment → Type 0
  Answer none = Unit
  Answer (some c) = P c

  refresh-keeps : (current seen : Assessment) → P current → P seen → P (refresh current seen)
  unfolding refresh
  refresh-keeps current seen p q = elim (Bool-cases (rank seen.tier == rank current.tier)) [
    | inl e ↦ rw e (subst P (same (rank-injective seen.tier current.tier (ground arith))) q)
    | inr e ↦ rw e p
  ]
    where
      same : seen.tier ≡ current.tier → seen ≡ record current { reason = seen.reason }
      same e = cc

  settle-keeps :
      (better : Option Assessment) (current seen : Assessment)
      → Answer better
      → P current
      → P seen
      → P (settle better current seen)
  unfolding settle
  settle-keeps none current seen b p q = refresh-keeps current seen p q
  settle-keeps (some c) current seen b p q =
      elim (Bool-cases (ltb (rank c.tier) (rank current.tier))) [
        | inl e ↦ rw e b
        | inr e ↦ rw e (refresh-keeps current seen p q)
      ]

  escalate-keeps :
      (worse better : Option Assessment) (current seen : Assessment)
      → Answer worse
      → Answer better
      → P current
      → P seen
      → P (escalate worse better current seen)
  unfolding escalate
  escalate-keeps none better current seen a b p q = settle-keeps better current seen b p q
  escalate-keeps (some c) better current seen a b p q =
      elim (Bool-cases (ltb (rank current.tier) (rank c.tier))) [
        | inl e ↦ rw e a
        | inr e ↦ rw e (settle-keeps better current seen b p q)
      ]

  -- An answer comes from the history.
  Answer-supported :
      (history : List Sample) (now_ms window_ms : ℕ) (worst : Bool)
      → All (λ s. P s.1) history
      → (o : Option Assessment) → supported_by_all history now_ms window_ms worst ≡ o
      → Answer o
  Answer-supported history now_ms window_ms worst p none e = tt
  Answer-supported history now_ms window_ms worst p (some c) e =
      let (_, s) = supported_by_all-IsSupported history now_ms window_ms worst e in
      Any_elim _ (λ u h. subst P h.1 h.0) _
        (All_Any _ _ _ (All-filter_of_All _ _ history p) s.from_one)

  abbrev Keeps : TierTracker → Type 0
  Keeps t = P t.current × All (λ s. P s.1) t.history

  All-record_sample :
      (t : TierTracker) (seen : Assessment) (now_ms : ℕ)
      → Keeps t
      → P seen
      → All (λ s. P s.1) (record_sample t seen now_ms)
  unfolding record_sample
  All-record_sample t seen now_ms k q = All-prune _ _ _ (All-append _ t.history _ k.1 (q, tt))

  observe-Keeps :
      (t : TierTracker) (seen : Assessment) (now_ms : ℕ)
      → Keeps t
      → P seen
      → Keeps (observe t seen now_ms).0
  unfolding observe
  observe-Keeps t seen now_ms k q =
      let all = All-record_sample t seen now_ms k q in
      (
        escalate-keeps _ _ t.current seen (Answer-supported _ now_ms t.escalate_ms true all _ refl)
            (Answer-supported _ now_ms t.settle_ms false all _ refl) k.0 q,
        all,
      )

  observe_all-Keeps :
      (t : TierTracker) (seen : List Sample)
      → Keeps t
      → All (λ s. P s.1) seen
      → Keeps (observe_all t seen)
  unfolding observe_all
  observe_all-Keeps t [] k q = k
  observe_all-Keeps t (s ∷ seen) k q =
      observe_all-Keeps (observe t s.1 s.0).0 seen (observe-Keeps t s.1 s.0 k q.0) q.1

-- After any observations at any times, a new tracker shows either the initial assessment or exactly
-- one that was observed: it never pairs the tier of one window with the reason of another tier.
pub observe_all-shown :
    (escalate_ms settle_ms : ℕ) (seen : List Sample)
    → let shown = (observe_all (start escalate_ms settle_ms) seen).current in
      (shown ≡ untroubled) ⊎ Any (λ s. s.1 ≡ shown) seen
observe_all-shown escalate_ms settle_ms seen =
    (observe_all-Keeps (λ a. (a ≡ untroubled) ⊎ Any (λ s. s.1 ≡ a) seen)
      (start escalate_ms settle_ms) seen (inl refl, tt)
      (All_map _ _ (λ s h. inr h) seen (All_Any_refl (λ y x. y.1 ≡ x.1) (λ x. refl) seen))).0
