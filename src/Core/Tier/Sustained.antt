-- ===== src/Core/Tier/Sustained.antt =====
-- Runs of observations: loads and recoveries that last.
use mathlib.Core.Path.{subst}
use loadbear.Prelude.{
  ℕ, ◌-◌, ◌≤◌, ◌≡◌, refl, sym, ap, ◌∙◌, inl, inr, Bool, List, [], ◌∷◌, ◌++◌, arith, All, Any,
  All_Any, Any_elim, Any-filter, Any-map, Bool-cases, leb→le, filter,
}
use loadbear.Core.Tier.{
  rank, Assessment, Sample, TierTracker, start, horizon, window, observe, observe_all,
}
use loadbear.Core.Tier.Window.{Covered}
use loadbear.Core.Tier.Log.{IsOrderly, since, IsOrderly-since, last_time, history-observe_all}
use loadbear.Core.Tier.Moves.{observe_sustained}

observe_all-append :
    (t : TierTracker) (xs : List Sample) (x : Sample)
    → observe_all t (xs ++ x ∷ []) ≡ (observe (observe_all t xs) x.1 x.0).0
unfolding observe_all
observe_all-append t [] x = refl
observe_all-append t (y ∷ xs) x = observe_all-append (observe t y.1 y.0).0 xs x

last_time-append : (b : ℕ) (xs : List Sample) (x : Sample) → last_time b (xs ++ x ∷ []) ≡ x.0
last_time-append b [] x = refl
last_time-append b (y ∷ xs) x = last_time-append y.0 xs x

fixed_windows :
    (t : TierTracker) (xs : List Sample)
    → ((observe_all t xs).escalate_ms ≡ t.escalate_ms)
      × ((observe_all t xs).settle_ms ≡ t.settle_ms)
unfolding observe_all observe
fixed_windows t [] = (refl, refl)
fixed_windows t (x ∷ xs) = fixed_windows (observe t x.1 x.0).0 xs

-- On times that do not fall, one old enough observation covers the window.
Covered-of_Any :
    (xs : List Sample) (now_ms window_ms : ℕ)
    → IsOrderly xs
    → Any (λ s. s.0 ≤ now_ms - window_ms) xs
    → Covered xs now_ms window_ms
Covered-of_Any [] now_ms window_ms o m = m
Covered-of_Any (x ∷ xs) now_ms window_ms o (inl h) = h
Covered-of_Any (x ∷ xs) now_ms window_ms o (inr m) =
    Any_elim _ (λ s h. let e = leb→le _ _ h.0 in omega arith) xs (All_Any _ _ xs o.0 m)

-- A list filtered twice has no more in it.
All-filter_filter :
    (P : Sample → Type 0) (p q : Sample → Bool) (xs : List Sample)
    → All P (filter p xs)
    → All P (filter p (filter q xs))
All-filter_filter P p q [] h = tt
All-filter_filter P p q (x ∷ xs) h = elim (Bool-cases (p x)) [
  | inl e ↦
      let h' = rw (e, filter) at h in
      elim (Bool-cases (q x)) [
        | inl d ↦ rw (d, filter) (rw (e, filter) (h'.0, All-filter_filter P p q xs h'.1))
        | inr d ↦ rw (d, filter) (All-filter_filter P p q xs h'.1)
      ]
  | inr e ↦
      let h' = rw (e, filter) at h in
      elim (Bool-cases (q x)) [
        | inl d ↦ rw (d, filter) (rw (e, filter) (All-filter_filter P p q xs h'))
        | inr d ↦ rw (d, filter) (All-filter_filter P p q xs h')
      ]
]

module _ (escalate_ms settle_ms : ℕ) (past : List Sample) (now_ms : ℕ) (seen : Assessment) where
  abbrev pub log : List Sample
  log = past ++ (now_ms, seen) ∷ []

  abbrev pub before : TierTracker
  before = observe_all (start escalate_ms settle_ms) past

  -- The history after the last observation, from the log.
  history-log :
      IsOrderly log
      → (observe before seen now_ms).0.history ≡ since (horizon escalate_ms settle_ms now_ms) log
  history-log o =
      ap (λ t. t.history)
        (sym (observe_all-append (start escalate_ms settle_ms) past (now_ms, seen)))
      ∙ history-observe_all escalate_ms settle_ms log o
      ∙ ap (λ n. since (horizon escalate_ms settle_ms n) log)
          (last_time-append 0 past (now_ms, seen))

  Covered-log :
      (window_ms : ℕ)
      → IsOrderly log
      → Any (λ s. (horizon escalate_ms settle_ms now_ms ≤ s.0) × (s.0 ≤ now_ms - window_ms)) log
      → Covered (observe before seen now_ms).0.history now_ms window_ms
  Covered-log window_ms o m = rw (history-log o) (
      Covered-of_Any _ now_ms window_ms (IsOrderly-since _ log o)
        (Any-filter _ _ log (Any-map _ _ (λ s h. (ground arith, h.1)) log m)))

  -- The last result is what is shown after the run.
  pub shown-log :
      (observe before seen now_ms).1.tier
      ≡ (observe_all (start escalate_ms settle_ms) log).current.tier
  unfolding observe
  shown-log =
      ap (λ t. t.current.tier)
        (sym (observe_all-append (start escalate_ms settle_ms) past (now_ms, seen)))

  window-log :
      (P : Sample → Type 0) (window_ms : ℕ)
      → IsOrderly log
      → All P (window now_ms window_ms log)
      → All P (window now_ms window_ms (observe before seen now_ms).0.history)
  window-log P window_ms o p = rw (history-log o) (All-filter_filter P _ _ log p)

  -- A load that lasts is shown: on a clock that does not run backwards, if every observation of the
  -- last escalation window is at least as bad as `k`, and some kept observation stands at its start or
  -- before it, then what is shown is at least as bad as `k`, whatever came before.
  pub sustained_load_shown :
      (k : ℕ)
      → IsOrderly log
      → Any (λ s. (horizon escalate_ms settle_ms now_ms ≤ s.0) × (s.0 ≤ now_ms - escalate_ms)) log
      → All (λ s. k ≤ rank s.1.tier) (window now_ms escalate_ms log)
      → k ≤ rank (observe_all (start escalate_ms settle_ms) log).current.tier
  sustained_load_shown k o m p =
      let e = sym (fixed_windows (start escalate_ms settle_ms) past).0 in
      subst (λ x. k ≤ rank x) shown-log
        (observe_sustained before seen now_ms k
          (subst (Covered (observe before seen now_ms).0.history now_ms) e
            (Covered-log escalate_ms o m))
          (subst
            (λ w.
              All (λ s. k ≤ rank s.1.tier) (window now_ms w (observe before seen now_ms).0.history))
            e (window-log _ escalate_ms o p)))
