-- ===== src/Core/Verdict/Fires.antt =====
-- When each kind of verdict is given, read from the reading and the specification alone.
use mathlib.Core.Path.{ap₂}
use loadbear.Prelude.{
  ℕ, ◌+◌, ◌≡◌, ◌∙◌, Bool, true, false, ◌&&◌, Option, none, some, List, [], ◌∷◌, ◌++◌, arith, ltb,
  if◌then◌else◌,
}
use loadbear.Float.{Float}
use loadbear.Core.Types.{ThrottleState, CpuReading, Reading}
use loadbear.Core.Spec.{CpuSpec}
use loadbear.Core.Spec.Merge.{ceiling_watts, floor_watts}
use loadbear.Core.Verdict.{
  VerdictKind, below_base_clock, throttling, power_outside_band, power_below_rating,
  thermal_headroom_low, Verdict, throttle_verdicts, thermal_verdicts, clock_verdicts,
  published_verdicts, evaluate, base_clock, thermal_headroom_low_c, under_demand,
}

abbrev pub kind_eq : VerdictKind → VerdictKind → Bool
kind_eq below_base_clock below_base_clock = true
kind_eq throttling throttling = true
kind_eq power_outside_band power_outside_band = true
kind_eq power_below_rating power_below_rating = true
kind_eq thermal_headroom_low thermal_headroom_low = true
kind_eq _ _ = false

-- How many verdicts of this kind a list holds.
abbrev pub count : VerdictKind → List Verdict → ℕ
count k [] = 0
count k (v ∷ vs) = (if kind_eq v.kind k then 1 else 0) + count k vs

abbrev pub if_any : Bool → ℕ
if_any b = if b then 1 else 0

count-append :
    (k : VerdictKind) (vs ws : List Verdict) → count k (vs ++ ws) ≡ count k vs + count k ws
count-append k [] ws = omega arith
count-append k (v ∷ vs) ws = omega (arith, count-append k vs ws)

abbrev pub below : Option ℕ → Option ℕ → Bool
below (some mhz) (some base) = ltb mhz base
below (some mhz) none = false
below none _ = false

count-throttle :
    (k : VerdictKind) (t : ThrottleState)
    → count k (throttle_verdicts t) ≡ if_any (kind_eq throttling k && t.asserted)
unfolding throttle_verdicts
count-throttle k t = ground arith

module _ {F : Type 0} ⦃f : Float F⦄ where
  abbrev near_limit : Option F → Option F → Bool
  near_limit (some temp) (some tjmax) = f.le (f.sub tjmax temp) thermal_headroom_low_c
  near_limit (some temp) none = false
  near_limit none _ = false

  -- The guaranteed clock: that of the specification, or else the machine's own.
  abbrev pub guaranteed : Option (CpuSpec F) → Option ℕ → Option ℕ
  guaranteed (some s) reported = some s.base_mhz
  guaranteed none reported = reported

  abbrev pub above_ceiling : Option (CpuSpec F) → Option F → Bool
  above_ceiling (some s) (some watts) = f.lt (f.of_ℕ (ceiling_watts s)) watts
  above_ceiling (some s) none = false
  above_ceiling none _ = false

  abbrev pub below_floor : Option (CpuSpec F) → Option F → Bool
  below_floor (some s) (some watts) = f.lt watts (f.of_ℕ (floor_watts s))
  below_floor (some s) none = false
  below_floor none _ = false

  abbrev pub fires : VerdictKind → CpuReading F → Option (CpuSpec F) → Bool
  fires throttling c spec = c.throttle.asserted
  fires thermal_headroom_low c spec = near_limit c.package_temp_c c.tjmax_c
  fires below_base_clock c spec =
      under_demand c.utilization_pct && below c.all_core_mhz (guaranteed spec c.reported_base_mhz)
  fires power_outside_band c spec = above_ceiling spec c.package_watts
  fires power_below_rating c spec =
      under_demand c.utilization_pct && below_floor spec c.package_watts

  count-thermal :
      (k : VerdictKind) (temp tjmax : Option F)
      → count k (thermal_verdicts temp tjmax)
        ≡ if_any (kind_eq thermal_headroom_low k && near_limit temp tjmax)
  unfolding thermal_verdicts
  count-thermal k temp tjmax = ground arith

  count-clock :
      (k : VerdictKind) (mhz : Option ℕ) (spec : Option (CpuSpec F)) (reported : Option ℕ)
      (u : Option F)
      → count k (clock_verdicts mhz (base_clock spec reported) u)
        ≡ if_any
            (kind_eq below_base_clock k && (under_demand u && below mhz (guaranteed spec reported)))
  unfolding clock_verdicts base_clock
  count-clock k mhz spec reported u = ground arith

  -- Of the five tests the one of the kind is left.
  by_kind :
      (k : VerdictKind) (c : CpuReading F) (spec : Option (CpuSpec F)) {n : ℕ}
      → n
        ≡ if_any (kind_eq throttling k && c.throttle.asserted)
          + (if_any (kind_eq thermal_headroom_low k && near_limit c.package_temp_c c.tjmax_c)
              + (if_any (
                    kind_eq below_base_clock k
                    && (under_demand c.utilization_pct
                        && below c.all_core_mhz (guaranteed spec c.reported_base_mhz)))
                  + (if_any (kind_eq power_outside_band k && above_ceiling spec c.package_watts)
                      + if_any (
                          kind_eq power_below_rating k
                          && (under_demand c.utilization_pct
                              && below_floor spec c.package_watts)))))
      → n ≡ if_any (fires k c spec)
  by_kind below_base_clock c spec e = e ∙ omega arith
  by_kind k c spec e = e ∙ omega arith

  count-published :
      (k : VerdictKind) (spec : Option (CpuSpec F)) (u w : Option F)
      → count k (published_verdicts spec u w)
        ≡ if_any (kind_eq power_outside_band k && above_ceiling spec w)
          + if_any (kind_eq power_below_rating k && (under_demand u && below_floor spec w))
  unfolding published_verdicts
  count-published k spec u w = ground arith

  -- A reading and a specification give at most one verdict of each kind, and give it exactly when
  -- `fires` says so.
  pub count-evaluate :
      (k : VerdictKind) (r : Reading F) (spec : Option (CpuSpec F))
      → count k (evaluate r spec) ≡ if_any (fires k r.cpu spec)
  unfolding evaluate
  count-evaluate k r spec =
      let c = r.cpu in
      let throttle = throttle_verdicts c.throttle in
      let thermal = thermal_verdicts c.package_temp_c c.tjmax_c in
      let clock =
        clock_verdicts c.all_core_mhz (base_clock spec c.reported_base_mhz) c.utilization_pct in
      let published = published_verdicts spec c.utilization_pct c.package_watts in
      by_kind k c spec (
        count-append k throttle _
        ∙ (ap₂ ◌+◌ (count-throttle k c.throttle) (
            count-append k thermal _
            ∙ (ap₂ ◌+◌ (count-thermal k c.package_temp_c c.tjmax_c) (
                count-append k clock _
                ∙ (ap₂ ◌+◌ (count-clock k c.all_core_mhz spec c.reported_base_mhz c.utilization_pct)
                    (count-published k spec c.utilization_pct c.package_watts)))))))
