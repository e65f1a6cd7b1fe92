-- ===== src/Core/Verdict/Examples.antt =====
-- Readings judged against the small databases.
use mathlib.Core.Path.{subst}
use mathlib.Core.Option.{some-injective}
use loadbear.Prelude.{false, ◌≡◌, refl, ◌↔◌, none, some, show_ℕ, [], ◌∷◌, map}
use loadbear.Float.Fixed.{Fixed, fixed_float, Fixed-IsOrdered}
use loadbear.Core.Types.{Reading}
use loadbear.Core.Spec.{SpecMatch, candidates, resolve}
use loadbear.Core.Verdict.{
  VerdictKind, at_limit, thermal_band, evaluate, throttle_verdicts, thermal_verdicts,
  clock_verdicts, base_clock, published_verdicts,
}
use loadbear.Core.Verdict.Fires.{count, if_any, fires, count-evaluate}
use loadbear.Core.Verdict.Band.{at_limit_iff_headroom_low}
use loadbear.Core.Samples.{
  whole, amd_key, slow_part, fast_part, banded, low_part, rated_only, busy, heated, reading_of,
}

abbrev held_back : Reading Fixed
held_back = reading_of (busy 1400 8) []

abbrev near : Reading Fixed
near = reading_of (heated 102 105) []

abbrev banded_match : SpecMatch Fixed
banded_match = record {
  spec = record slow_part { name = "Part and 1 similar"; ctdp_min_watts = some 10 };
  candidates = 2;
}

abbrev rated_match : SpecMatch Fixed
rated_match = record { spec = record low_part { name = "Part and 1 similar" }; candidates = 2 }

banded_match-resolve : resolve banded amd_key 16 ≡ some banded_match
unfolding resolve show_ℕ
banded_match-resolve = refl

rated_match-resolve : resolve rated_only amd_key 16 ≡ some rated_match
unfolding resolve show_ℕ
rated_match-resolve = refl

banded-candidates : candidates banded amd_key 16 ≡ slow_part ∷ fast_part ∷ []
unfolding candidates
banded-candidates = refl

-- A busy processor below both its clock and its power.
evaluate-held_back :
    map (λ v. v.kind) (evaluate held_back (some slow_part))
    ≡ VerdictKind.below_base_clock ∷ VerdictKind.power_below_rating ∷ []
unfolding evaluate throttle_verdicts thermal_verdicts clock_verdicts base_clock published_verdicts
evaluate-held_back = refl

count-evaluate_example :
    count VerdictKind.below_base_clock (evaluate held_back (some slow_part))
    ≡ if_any (fires VerdictKind.below_base_clock held_back.cpu (some slow_part))
count-evaluate_example = count-evaluate VerdictKind.below_base_clock held_back (some slow_part)

at_limit_iff_headroom_low_example :
    (thermal_band (whole 102) (some (whole 105)) ≡ some at_limit)
    ↔ (count VerdictKind.thermal_headroom_low (evaluate near none) ≡ 1)
at_limit_iff_headroom_low_example =
    at_limit_iff_headroom_low Fixed-IsOrdered near none (whole 102) (whole 105) refl refl refl refl

-- The headroom at both temperatures is a number.
abbrev IsJudged : Fixed → Type 0
IsJudged j =
    (fixed_float.is_nan (fixed_float.sub j (whole 60)) ≡ false)
    × (fixed_float.is_nan (fixed_float.sub j (whole 102)) ≡ false)

hot_limit : (j : Fixed) → some (whole 105) ≡ some j → IsJudged j
hot_limit j e = subst IsJudged (some-injective _ _ e) (refl, refl)
