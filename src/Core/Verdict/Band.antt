-- ===== src/Core/Verdict/Band.antt =====
-- The temperature band against the headroom verdict, and against a rising temperature.
use loadbear.Prelude.{ℕ, ◌≤◌, ◌≡◌, refl, ◌↔◌, true, false, Option, none, some, arith}
use loadbear.Float.{Float, zero_float}
use loadbear.Float.Laws.{IsOrdered, lt_le_trans}
use loadbear.Core.Types.{Reading}
use loadbear.Core.Spec.{CpuSpec}
use loadbear.Core.Verdict.{
  ThermalBand, normal, warm, hot, at_limit, thermal_headroom_low, thermal_band, evaluate,
  thermal_headroom_low_c, headroom_normal_c, headroom_warm_c,
}
use loadbear.Core.Verdict.Fires.{count, count-evaluate}

-- The bands in the order of the temperature; an unknown one is below all.
abbrev pub rank : Option ThermalBand → ℕ
rank none = 0
rank (some normal) = 1
rank (some warm) = 2
rank (some hot) = 3
rank (some at_limit) = 4

module _ {F : Type 0} ⦃f : Float F⦄ (laws : IsOrdered F) where
  -- A headroom that is not above five degrees is above neither of the wider bounds.
  not-lt_of_low :
      (h : F) (m : ℕ)
      → 50 ≤ m
      → f.le h thermal_headroom_low_c ≡ true
      → f.lt (f.decimal m 1) h ≡ false
  not-lt_of_low h m b low = ground (
    arith,
    laws.decimal_mono 50 m 1 b,
    laws.le_numbers h thermal_headroom_low_c low,
    laws.decimal_number m 1,
    laws.lt-eq-not-le (f.decimal m 1) h,
    laws.le_trans h thermal_headroom_low_c (f.decimal m 1),
  )

  -- With ordered comparisons, for a part with a known limit above zero and a headroom that is no
  -- NaN, the band is `AtLimit` exactly when `evaluate` gives the verdict that the thermal headroom
  -- is low.
  pub at_limit_iff_headroom_low :
      (r : Reading F) (spec : Option (CpuSpec F)) (temp tjmax : F)
      → r.cpu.package_temp_c ≡ some temp
      → r.cpu.tjmax_c ≡ some tjmax
      → f.le tjmax zero_float ≡ false
      → f.is_nan (f.sub tjmax temp) ≡ false
      → (thermal_band temp (some tjmax) ≡ some at_limit)
        ↔ (count thermal_headroom_low (evaluate r spec) ≡ 1)
  unfolding thermal_band
  at_limit_iff_headroom_low r spec temp tjmax et ej pos num =
      let h = f.sub tjmax temp in
      ground (
        arith,
        count-evaluate thermal_headroom_low r spec,
        laws.decimal_number 50 1,
        laws.lt-eq-not-le thermal_headroom_low_c h,
        not-lt_of_low h 50 (omega arith),
        not-lt_of_low h 150 (omega arith),
        not-lt_of_low h 250 (omega arith),
      )

  -- With ordered comparisons, a hotter part is never in a lower band, where neither headroom is
  -- NaN; without a limit both bands are unknown.
  pub rank-thermal_band_mono :
      (t u : F) (tjmax : Option F)
      → f.le t u ≡ true
      → ((j : F) → tjmax ≡ some j → (f.is_nan (f.sub j t) ≡ false) × (f.is_nan (f.sub j u) ≡ false))
      → rank (thermal_band t tjmax) ≤ rank (thermal_band u tjmax)
  unfolding thermal_band
  rank-thermal_band_mono t u none h n = omega arith
  rank-thermal_band_mono t u (some j) h n =
      let (nt, nu) = n j refl in
      let falls = laws.sub_antitone t u j h nt nu in
      ground (
        arith,
        keeps_above falls headroom_normal_c,
        keeps_above falls headroom_warm_c,
        keeps_above falls thermal_headroom_low_c,
      )
    where
      keeps_above :
          f.le (f.sub j u) (f.sub j t) ≡ true
          → (b : F) → f.lt b (f.sub j u) ≡ true
          → f.lt b (f.sub j t) ≡ true
      keeps_above falls b above = lt_le_trans laws b (f.sub j u) (f.sub j t) above falls

module _ {F : Type 0} ⦃f : Float F⦄ where
  -- With a limit of zero or less, a reading with little headroom gets the verdict that it is low,
  -- while the band is unknown.
  pub headroom_low_with_no_band :
      (r : Reading F) (spec : Option (CpuSpec F)) (temp tjmax : F)
      → r.cpu.package_temp_c ≡ some temp
      → r.cpu.tjmax_c ≡ some tjmax
      → f.le tjmax zero_float ≡ true
      → f.le (f.sub tjmax temp) thermal_headroom_low_c ≡ true
      → (thermal_band temp (some tjmax) ≡ none) × (count thermal_headroom_low (evaluate r spec) ≡ 1)
  unfolding thermal_band
  headroom_low_with_no_band r spec temp tjmax et ej zero low =
      ground (arith, count-evaluate thermal_headroom_low r spec)
