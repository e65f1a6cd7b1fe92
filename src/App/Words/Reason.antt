-- ===== src/App/Words/Reason.antt =====
-- crates/loadbear-app/src/main.rs: `reason_text`, the sentence on the tier that is shown.
use Prim.Native.String.{◌++◌}
use Prim.Native.String.append
use loadbear.Prelude.{
  Bool, true, false, not, ◌&&◌, ◌≡◌, refl, String, inl, inr, Bool-cases, ltb, ◌==◌, concat, [], ◌∷◌,
  arith,
}
use loadbear.Core.Types.{Resource}
use loadbear.Core.Verdict.{VerdictKind}
use loadbear.Core.Tier.{rank, TierReason, Assessment}
use loadbear.App.Words.{describe, is_clear, is_verdict, reason_text}

abbrev pub is_silent : String → Bool
is_silent String.[] = true
is_silent (String.◌∷◌ c s) = false

describe_speaks : (r : TierReason) → is_silent (describe r) ≡ false
unfolding describe
describe_speaks TierReason.clear = refl
describe_speaks (TierReason.verdict VerdictKind.below_base_clock) = refl
describe_speaks (TierReason.verdict VerdictKind.throttling) = refl
describe_speaks (TierReason.verdict VerdictKind.power_outside_band) = refl
describe_speaks (TierReason.verdict VerdictKind.power_below_rating) = refl
describe_speaks (TierReason.verdict VerdictKind.thermal_headroom_low) = refl
describe_speaks (TierReason.stall Resource.cpu) = refl
describe_speaks (TierReason.stall Resource.memory) = refl
describe_speaks (TierReason.stall Resource.io) = refl

append_speaks : (s t : String) → is_silent s ≡ false → is_silent (s ++ t) ≡ false
append_speaks String.[] t h = absurd (cc (h))
append_speaks (String.◌∷◌ c s) t h = rw (append.cons c s t) refl

longer_speaks : (r : TierReason) (s : String) → is_silent (concat (describe r ∷ s ∷ [])) ≡ false
longer_speaks r s = append_speaks (describe r) _ (describe_speaks r)

clear-is_verdict : (r : TierReason) → is_clear r ≡ true → is_verdict r ≡ false
clear-is_verdict TierReason.clear e = refl
clear-is_verdict (TierReason.verdict k) e = absurd (cc (e))
clear-is_verdict (TierReason.stall k) e = refl

-- The sentence on the tier is empty exactly where the tier that is shown rests on a verdict and the
-- latest window has the same tier, whatever that window's own reason is.
pub reason_text-is_silent :
    (adopted latest : Assessment) (settled : Bool)
    → is_silent (reason_text adopted latest settled)
      ≡ (rank latest.tier == rank adopted.tier && is_verdict adopted.reason)
unfolding reason_text
reason_text-is_silent adopted latest settled =
    let starting = not settled && is_clear adopted.reason && is_clear latest.reason in
    let same = rank latest.tier == rank adopted.tier in
    elim (Bool-cases starting) [
      | inl e ↦ rw e (ground (arith, clear-is_verdict adopted.reason))
      | inr e ↦ elim (Bool-cases (same && is_verdict adopted.reason)) [
        | inl v ↦ rw (e, v) refl
        | inr v ↦
            rw (e, v)
              (elim (Bool-cases (not same)) [
                | inl n ↦ rw n (elim (Bool-cases (ltb (rank adopted.tier) (rank latest.tier))) [
                  | inl w ↦ rw w (longer_speaks latest.reason " Watching to see whether it holds.")
                  | inr w ↦ rw w (longer_speaks latest.reason " Easing off.")
                ])
                | inr n ↦ rw n (describe_speaks adopted.reason)
              ])
      ]
    ]
