-- ===== src/Core/Attribution/Causes/Findings.antt =====
-- The findings against the verdicts they come from.
use mathlib.Core.Path.{subst}
use mathlib.Core.Option
use loadbear.Prelude.{sym, ◌≡◌, refl, Option, none, some, List, [], ◌∷◌, is_some, ◌>>=◌}
use loadbear.Float.{Float}
use loadbear.Core.Types.{Reading}
use loadbear.Core.Verdict.{VerdictKind, Verdict}
use loadbear.Core.Contract.{Cause, Remediation, Finding, is_actionable}
use loadbear.Core.Attribution.Groups.{Lowercase}
use loadbear.Core.Attribution.Causes.{
  starved_cause, finding_of, attribute, resource_for, diagnose_one, diagnose,
}

-- What answers a verdict: a starved platform is put down to the power supply, any other verdict to the
-- leader for the resource it is about, where there is one.
abbrev pub answer_to :
    {F : Type 0}
    → ⦃f : Float F⦄ → ⦃l : Lowercase⦄ → Reading F
    → Verdict
    → VerdictKind
    → Option (Cause × Remediation)
answer_to reading v VerdictKind.power_below_rating =
    some (starved_cause, Remediation.change_power_state)
answer_to reading v _ = resource_for reading v >>= λ r. attribute reading r

-- A finding is for a verdict where it carries that verdict and the answer to it, the cause and the action
-- together, and may interrupt exactly where there is an answer.
pub record IsFor {F : Type 0} ⦃f : Float F⦄ ⦃l : Lowercase⦄ (reading : Reading F) (v : Verdict)
    (x : Finding) : Type 0 where
  pub verdict : x.verdict ≡ v
  pub cause : x.cause ≡ Option.map (λ a. a.0) (answer_to reading v v.kind)
  pub remediation : x.remediation ≡ Option.map (λ a. a.1) (answer_to reading v v.kind)
  pub actionable : is_actionable x ≡ is_some (answer_to reading v v.kind)

-- One finding for each verdict, in the order of the verdicts.
abbrev pub AllFor :
    {F : Type 0}
    → ⦃f : Float F⦄ → ⦃l : Lowercase⦄ → Reading F
    → List Verdict
    → List Finding
    → Type 0
AllFor reading [] [] = Unit
AllFor reading (v ∷ vs) (x ∷ xs) = IsFor reading v x × AllFor reading vs xs
AllFor reading _ _ = ⊥

module _ {F : Type 0} ⦃f : Float F⦄ ⦃l : Lowercase⦄ (reading : Reading F) where
  finding_of-IsFor :
      (v : Verdict) (a : Option (Cause × Remediation))
      → answer_to reading v v.kind ≡ a
      → IsFor reading v (finding_of v a)
  unfolding finding_of is_actionable
  finding_of-IsFor v none e = record {
    verdict = refl;
    cause = rw e refl;
    remediation = rw e refl;
    actionable = rw e refl;
  }
  finding_of-IsFor v (some (c, r)) e = record {
    verdict = refl;
    cause = rw e refl;
    remediation = rw e refl;
    actionable = rw e refl;
  }

  diagnose_one-eq :
      (v : Verdict) (k : VerdictKind)
      → diagnose_one reading v k ≡ finding_of v (answer_to reading v k)
  unfolding diagnose_one finding_of
  diagnose_one-eq v VerdictKind.below_base_clock = refl
  diagnose_one-eq v VerdictKind.throttling = refl
  diagnose_one-eq v VerdictKind.power_outside_band = refl
  diagnose_one-eq v VerdictKind.power_below_rating = refl
  diagnose_one-eq v VerdictKind.thermal_headroom_low = refl

  diagnose_one-IsFor : (v : Verdict) → IsFor reading v (diagnose_one reading v v.kind)
  diagnose_one-IsFor v =
      subst (IsFor reading v) (sym (diagnose_one-eq v v.kind)) (finding_of-IsFor v _ refl)

  -- `diagnose` gives one finding for each verdict, in order.
  pub diagnose-AllFor : (vs : List Verdict) → AllFor reading vs (diagnose reading vs)
  unfolding diagnose
  diagnose-AllFor [] = tt
  diagnose-AllFor (v ∷ vs) = (diagnose_one-IsFor v, diagnose-AllFor vs)
