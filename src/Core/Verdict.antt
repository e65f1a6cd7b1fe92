-- ===== src/Core/Verdict.antt =====
-- crates/loadbear-core/src/verdict.rs: the judgements that a reading and a specification support.
pub mod Fires
pub mod Band
pub mod Conservative
mod Examples
use loadbear.Prelude.{
  ℕ, Bool, true, false, ◌&&◌, String, Option, none, some, List, [], ◌∷◌, ◌++◌, ltb, if◌then◌else◌,
  unwrap_or, show_ℕ, concat,
}
use loadbear.Float.{Float, zero_float}
use loadbear.Core.Types.{ThrottleReason, ThrottleState, CpuReading, Reading}
use loadbear.Core.Spec.{CpuSpec}

pub data Severity : Type 0 where
  ok degraded out_of_spec : Severity

pub data VerdictKind : Type 0 where
  below_base_clock throttling power_outside_band power_below_rating thermal_headroom_low :
      VerdictKind

pub record Verdict : Type 0 where
  pub kind : VerdictKind
  pub severity : Severity
  pub detail : String
  pub basis : String

pub data ThermalBand : Type 0 where
  normal warm hot at_limit : ThermalBand

-- `{:?}` of a reason
abbrev pub debug_reason : ThrottleReason → String
debug_reason ThrottleReason.thermal = "Thermal"
debug_reason ThrottleReason.power = "Power"
debug_reason ThrottleReason.electrical = "Electrical"
debug_reason ThrottleReason.other = "Other"

abbrev pub reason_text : Option ThrottleReason → String
reason_text none = "unspecified"
reason_text (some r) = debug_reason r

throttle_verdicts : ThrottleState → List Verdict
throttle_verdicts t =
    if t.asserted
    then record {
      kind = VerdictKind.throttling;
      severity = Severity.out_of_spec;
      detail = concat (
          "The hardware is asserting a throttle signal. Reason: "
          ∷ reason_text t.reason
          ∷ "."
          ∷ []);
      basis = "Hardware status bit, read directly. Not inferred from temperature.";
    }
      ∷ []
    else []

module _ {F : Type 0} ⦃f : Float F⦄ where
  abbrev pub thermal_headroom_low_c : F
  thermal_headroom_low_c = f.decimal 50 1

  abbrev pub headroom_normal_c : F
  headroom_normal_c = f.decimal 250 1

  abbrev pub headroom_warm_c : F
  headroom_warm_c = f.decimal 150 1

  abbrev pub min_utilization_for_base_clock_pct : F
  min_utilization_for_base_clock_pct = f.decimal 800 1

  unfoldable pub thermal_band : F → Option F → Option ThermalBand
  thermal_band temp_c none = none
  thermal_band temp_c (some tjmax) =
      if f.le tjmax zero_float
      then none
      else let headroom = f.sub tjmax temp_c in
        some (
          if f.lt headroom_normal_c headroom
          then ThermalBand.normal
          else if f.lt headroom_warm_c headroom
          then ThermalBand.warm
          else if f.lt thermal_headroom_low_c headroom
          then ThermalBand.hot
          else ThermalBand.at_limit)

  headroom_verdict : F → F → Verdict
  headroom_verdict headroom tjmax = record {
    kind = VerdictKind.thermal_headroom_low;
    severity = Severity.degraded;
    detail = concat (
        f.show_fixed 1 headroom
        ∷ " degrees C of headroom below the limit of "
        ∷ f.show_fixed 0 tjmax
        ∷ "."
        ∷ []);
    basis =
        "TjMax as reported by the processor or the specification database. Running at the limit is by design on modern parts.";
  }

  thermal_verdicts : Option F → Option F → List Verdict
  unfolding headroom_verdict
  thermal_verdicts (some temp) (some tjmax) =
      let headroom = f.sub tjmax temp in
      if f.le headroom thermal_headroom_low_c then headroom_verdict headroom tjmax ∷ [] else []
  thermal_verdicts (some temp) none = []
  thermal_verdicts none _ = []

  unfoldable pub under_demand : Option F → Bool
  under_demand none = false
  under_demand (some u) = f.le min_utilization_for_base_clock_pct u

  -- The guaranteed clock and the authority for it.
  unfoldable pub base_clock : Option (CpuSpec F) → Option ℕ → Option (ℕ × String)
  base_clock (some s) reported = some (s.base_mhz, concat (s.name ∷ " publishes" ∷ []))
  base_clock none none = none
  base_clock none (some m) = some (m, "This processor reports")

  clock_verdict : ℕ → ℕ → String → Option F → Verdict
  clock_verdict mhz base_mhz authority utilization = record {
    kind = VerdictKind.below_base_clock;
    severity = Severity.out_of_spec;
    detail = concat (
        "Every processor is busy, and the clock is "
        ∷ show_ℕ mhz
        ∷ " MHz against a guaranteed "
        ∷ show_ℕ base_mhz
        ∷ " MHz. Busy and slow at the same time means something is holding the clock down rather than the machine running out of work."
        ∷ []);
    basis = concat (
        authority
        ∷ " "
        ∷ show_ℕ base_mhz
        ∷ " MHz as its base clock, which is guaranteed at the rated TDP. Measured at "
        ∷ f.show_fixed 0 (unwrap_or utilization zero_float)
        ∷ " percent utilization, so the processor is being asked for it."
        ∷ []);
  }

  clock_verdicts : Option ℕ → Option (ℕ × String) → Option F → List Verdict
  unfolding under_demand clock_verdict
  clock_verdicts (some mhz) (some (base_mhz, authority)) utilization =
      if under_demand utilization && ltb mhz base_mhz
      then clock_verdict mhz base_mhz authority utilization ∷ []
      else []
  clock_verdicts (some mhz) none utilization = []
  clock_verdicts none base utilization = []

  above_band_verdict : F → F → Verdict
  above_band_verdict watts ceiling = record {
    kind = VerdictKind.power_outside_band;
    severity = Severity.degraded;
    detail = concat (
        "Package power is "
        ∷ f.show_fixed 1 watts
        ∷ " W against a ceiling of "
        ∷ f.show_fixed 0 ceiling
        ∷ " W."
        ∷ []);
    basis = "Rated TDP and configurable TDP band as published for this model.";
  }

  below_rating_verdict : F → F → String → Verdict
  below_rating_verdict watts floor name = record {
    kind = VerdictKind.power_below_rating;
    severity = Severity.degraded;
    detail = concat (
        "Every processor is busy and the package is drawing "
        ∷ f.show_fixed 1 watts
        ∷ " W, below the "
        ∷ f.show_fixed 0 floor
        ∷ " W this processor is rated to draw. It is being supplied less power than it is built to use."
        ∷ []);
    basis = concat (
        name
        ∷ " publishes a configurable TDP floor of "
        ∷ f.show_fixed 0 floor
        ∷ " W. Package power read from the processor's own energy counters."
        ∷ []);
  }

  -- The part below the early return.
  power_verdicts : CpuSpec F → Option F → Option F → List Verdict
  unfolding under_demand above_band_verdict below_rating_verdict
  power_verdicts spec utilization none = []
  power_verdicts spec utilization (some watts) =
      let ceiling = f.of_ℕ (unwrap_or spec.ctdp_max_watts spec.tdp_watts) in
      let floor = f.of_ℕ (unwrap_or spec.ctdp_min_watts spec.tdp_watts) in
      (if f.lt ceiling watts then above_band_verdict watts ceiling ∷ [] else [])
      ++ (if under_demand utilization && f.lt watts floor
          then below_rating_verdict watts floor spec.name ∷ []
          else [])

  -- The early return where there is no specification.
  published_verdicts : Option (CpuSpec F) → Option F → Option F → List Verdict
  unfolding power_verdicts
  published_verdicts none utilization watts = []
  published_verdicts (some spec) utilization watts = power_verdicts spec utilization watts

  -- The verdicts in the order in which `evaluate` pushes them.
  pub evaluate : Reading F → Option (CpuSpec F) → List Verdict
  evaluate reading spec =
      let cpu = reading.cpu in
      throttle_verdicts cpu.throttle
      ++ (thermal_verdicts cpu.package_temp_c cpu.tjmax_c
          ++ (clock_verdicts cpu.all_core_mhz (base_clock spec cpu.reported_base_mhz)
                cpu.utilization_pct
              ++ published_verdicts spec cpu.utilization_pct cpu.package_watts))
