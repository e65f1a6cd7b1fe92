-- ===== src/Core/Tier/Examples.antt =====
-- Runs of observations, two each second.
use loadbear.Prelude.{◌≤◌, ◌≡◌, refl, ◌⊎◌, List, [], ◌∷◌, All, Any, arith}
use loadbear.Float.Fixed.{fixed_float}
use loadbear.Core.Types.{worst}
use loadbear.Core.Verdict.{Severity, VerdictKind, Verdict}
use loadbear.Core.Tier.{
  Tier, rank, TierReason, Assessment, Sample, TierTracker, start, untroubled, horizon, window,
  classify, observe, observe_all, record_sample, prune, supported_by_all, escalate, later_worst,
  worst_verdict, verdict_reason,
}
use loadbear.Core.Tier.Classify.{IsWorst, classify-IsWorst}
use loadbear.Core.Tier.Window.{Covered}
use loadbear.Core.Tier.Shown.{observe_all-shown}
use loadbear.Core.Tier.Moves.{observe-rises, observe-falls}
use loadbear.Core.Tier.Log.{since, last_time, history-observe_all}
use loadbear.Core.Samples.{quiet}

abbrev throttled : Verdict
throttled = record {
  kind = VerdictKind.throttling;
  severity = Severity.out_of_spec;
  detail = "";
  basis = "";
}

abbrev strained : Assessment
strained = record { tier = Tier.strained; reason = TierReason.verdict VerdictKind.throttling }

-- A load at 500, 1000 and 1500 milliseconds, on a tracker of the windows 1000 and 2000.
abbrev loaded : List Sample
loaded = (500, strained) ∷ (1000, strained) ∷ (1500, strained) ∷ []

abbrev waiting : TierTracker
waiting = record {
  escalate_ms = 1000;
  settle_ms = 2000;
  current = untroubled;
  latest = strained;
  history = (500, strained) ∷ (1000, strained) ∷ [];
}

abbrev relaxing : TierTracker
relaxing = record {
  escalate_ms = 1000;
  settle_ms = 2000;
  current = strained;
  latest = untroubled;
  history = (3000, untroubled) ∷ (4000, untroubled) ∷ [];
}

classify-throttled : classify (throttled ∷ []) quiet ≡ strained
unfolding classify worst_verdict later_worst verdict_reason worst
classify-throttled = refl

observe_all-rises : (observe_all (start 1000 2000) loaded).current ≡ strained
unfolding observe_all observe record_sample prune supported_by_all escalate
observe_all-rises = refl

-- Two observations are not enough.
observe_all-waits :
    observe_all (start 1000 2000) ((500, strained) ∷ (1000, strained) ∷ []) ≡ waiting
unfolding observe_all observe record_sample prune supported_by_all escalate
observe_all-waits = refl

classify-IsWorst_example : IsWorst (throttled ∷ []) quiet (classify (throttled ∷ []) quiet)
classify-IsWorst_example = classify-IsWorst (throttled ∷ []) quiet

observe_all-shown_example :
    ((observe_all (start 1000 2000) loaded).current ≡ untroubled)
    ⊎ Any (λ s. s.1 ≡ (observe_all (start 1000 2000) loaded).current) loaded
observe_all-shown_example = observe_all-shown 1000 2000 loaded

observe-rises_example :
    Covered (observe waiting strained 1500).0.history 1500 1000
    × All
        (λ s. rank (observe waiting strained 1500).1.tier ≤ rank s.1.tier)
        (window 1500 1000 (observe waiting strained 1500).0.history)
unfolding observe record_sample prune supported_by_all escalate
observe-rises_example = observe-rises waiting strained 1500 (omega arith)

observe-falls_example :
    Covered (observe relaxing untroubled 5000).0.history 5000 2000
    × All
        (λ s. rank s.1.tier ≤ rank (observe relaxing untroubled 5000).1.tier)
        (window 5000 2000 (observe relaxing untroubled 5000).0.history)
unfolding observe record_sample prune supported_by_all escalate
observe-falls_example = observe-falls relaxing untroubled 5000 (omega arith)

history-observe_all_example :
    (observe_all (start 1000 2000) loaded).history
    ≡ since (horizon 1000 2000 (last_time 0 loaded)) loaded
history-observe_all_example =
    history-observe_all 1000 2000 loaded ((refl, (refl, tt)), ((refl, tt), (tt, tt)))
