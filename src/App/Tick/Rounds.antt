-- ===== src/App/Tick/Rounds.antt =====
-- What holds of the loop after any rounds.
use mathlib.Core.Path.{subst}
use loadbear.Prelude.{
  ℕ, ◌-◌, ◌≤◌, ◌≡◌, refl, sym, ◌∙◌, inl, inr, Bool, true, false, List, [], ◌∷◌, ◌++◌, All, Any,
  length, length-last_of, arith, ◌==◌, ◌%◌, if◌then◌else◌, Bool-cases,
}
use loadbear.Float.{Float}
use loadbear.Float.Laws.{IsOrdered}
use loadbear.Core.Tier.{
  Tier, rank, Sample, observe, observe_all, horizon, window, escalate_ms_default, settle_ms_default,
}
use loadbear.Core.Tier.Log.{IsOrderly}
use loadbear.Core.Tier.Sustained.{shown-log, sustained_load_shown}
use loadbear.Core.Attribution.Groups.{Lowercase}
use loadbear.Sensors.Counters.{window_samples}
use loadbear.Sensors.Counters.Window.{length-push}
use loadbear.Sensors.Baseline.{DiskBaseline, is_usable, save_if_changed}
use loadbear.Sensors.Baseline
use loadbear.Sensors.Baseline.Window.{IsWellFormed, observe-IsWellFormed, samples-save_if_changed}
use loadbear.App.State.{Setup, Round, Loop, history_points, history_every, baseline_save_every}
use loadbear.App.Tick.{
  remember, initial, judged, history_at, advance, view, rounds, tick_at, baseline_at,
}

module _ {D F : Type 0} ⦃d : Float D⦄ ⦃f : Float F⦄ ⦃l : Lowercase⦄ (as_f32 : D → F)
    (round_u32 : D → ℕ) (setup : Setup F) where
  -- The judgements of the rounds, each with its time.
  abbrev pub judgements : List (Round D F) → Loop D F → List Sample
  judgements [] s = []
  judgements (x ∷ xs) s =
      (x.now_ms, judged as_f32 round_u32 setup x s)
      ∷ judgements xs (advance as_f32 round_u32 setup x s)

  tracker-rounds :
      (xs : List (Round D F)) (s : Loop D F)
      → (rounds as_f32 round_u32 setup xs s).tracker ≡ observe_all s.tracker (judgements xs s)
  unfolding rounds observe_all advance
  tracker-rounds [] s = refl
  tracker-rounds (x ∷ xs) s = tracker-rounds xs (advance as_f32 round_u32 setup x s)

  -- A load that lasts is shown in the window: on a clock that does not run backwards, if every round of
  -- the last 1500 ms is judged at least as bad as `k`, and one that is still kept was at their start or
  -- before it, then the window shows a tier at least as bad as `k`, whatever came before.
  pub rounds_load_shown :
      (logical k : ℕ) (baseline : DiskBaseline D) (xs : List (Round D F)) (x : Round D F)
      → let s = rounds as_f32 round_u32 setup xs (initial logical baseline) in
        let all =
          judgements xs (initial logical baseline)
          ++ (x.now_ms, judged as_f32 round_u32 setup x s) ∷ [] in
        IsOrderly all
        → Any
            (λ j.
              (horizon escalate_ms_default settle_ms_default x.now_ms ≤ j.0)
              × (j.0 ≤ x.now_ms - escalate_ms_default))
            all
        → All (λ j. k ≤ rank j.1.tier) (window x.now_ms escalate_ms_default all)
        → k ≤ rank (view as_f32 round_u32 setup x s).tier
  unfolding view
  rounds_load_shown logical k baseline xs x orderly covered worse =
      let first : Loop D F = initial logical baseline in
      let seen = judged as_f32 round_u32 setup x (rounds as_f32 round_u32 setup xs first) in
      let past = judgements xs first in
      let now_ms = x.now_ms in
      subst (λ t. k ≤ rank (observe t seen now_ms).1.tier) (sym (tracker-rounds xs first))
        (subst (λ y. k ≤ rank y)
          (sym (shown-log escalate_ms_default settle_ms_default past now_ms seen))
          (sustained_load_shown escalate_ms_default settle_ms_default past now_ms seen k orderly
            covered worse))

  -- The window has at most four samples, the graph at most 300 points, the baseline is well formed, and
  -- the icons have the colour of the tier that the tracker shows.
  pub record IsKept (s : Loop D F) : Type 0 where
    pub window_capacity : s.window.capacity ≡ window_samples
    pub window_bounded : length s.window.samples ≤ window_samples
    pub history_bounded : length s.history ≤ history_points
    pub baseline_kept : IsWellFormed s.disk_baseline
    pub tier_painted : s.last_tier ≡ s.tracker.current.tier

  history_at-bounded :
      (x : Round D F) (s : Loop D F) (tier : Tier)
      → length s.history ≤ history_points
      → length (history_at as_f32 round_u32 setup x s tier) ≤ history_points
  unfolding history_at remember
  history_at-bounded x s tier h = elim (Bool-cases (tick_at s % history_every == 0)) [
    | inl e ↦ rw e (length-last_of history_points (s.history ++ _ ∷ []))
    | inr e ↦ rw e h
  ]

  saved-IsWellFormed :
      (x : Round D F) (b : DiskBaseline D) (save : Bool)
      → IsWellFormed b
      → IsWellFormed (if save then (save_if_changed x.store b).0 else b)
  saved-IsWellFormed x b false w = w
  saved-IsWellFormed x b true w =
      let e = sym (samples-save_if_changed x.store b) in
      record {
        bounded = subst (λ l. length l ≤ Baseline.window) e w.bounded;
        usable = subst (All (λ v. is_usable v ≡ true)) e w.usable;
      }

  advance-IsKept :
      IsOrdered D
      → (x : Round D F) (s : Loop D F) → IsKept s
      → IsKept (advance as_f32 round_u32 setup x s)
  unfolding advance observe
  advance-IsKept laws x s k =
      let pushed =
        length-push x.raw s.window (omega (arith, k.window_capacity))
          (omega (arith, k.window_capacity, k.window_bounded)) in
      record {
        window_capacity = pushed.1 ∙ k.window_capacity;
        window_bounded = omega (arith, pushed.0, k.window_capacity);
        history_bounded = history_at-bounded x s _ k.history_bounded;
        baseline_kept =
            saved-IsWellFormed x (baseline_at x s) (tick_at s % baseline_save_every == 0)
              (observe-IsWellFormed laws x.raw s.disk_baseline k.baseline_kept);
        tier_painted = refl;
      }

  rounds_from-IsKept :
      IsOrdered D
      → (xs : List (Round D F)) (s : Loop D F) → IsKept s
      → IsKept (rounds as_f32 round_u32 setup xs s)
  unfolding rounds
  rounds_from-IsKept laws [] s k = k
  rounds_from-IsKept laws (x ∷ xs) s k = rounds_from-IsKept laws xs _ (advance-IsKept laws x s k)

  -- With ordered comparisons, a loop that starts with a well formed baseline keeps its bounds through any
  -- rounds.
  pub rounds-IsKept :
      IsOrdered D
      → (logical : ℕ) (baseline : DiskBaseline D) → IsWellFormed baseline
      → (xs : List (Round D F))
      → IsKept (rounds as_f32 round_u32 setup xs (initial logical baseline))
  rounds-IsKept laws logical baseline w xs =
      rounds_from-IsKept laws xs (initial logical baseline) (record {
        window_capacity = refl;
        window_bounded = omega arith;
        history_bounded = omega arith;
        baseline_kept = w;
        tier_painted = refl;
      })
