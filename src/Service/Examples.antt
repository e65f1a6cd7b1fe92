-- ===== src/Service/Examples.antt =====
-- A helper on an AMD part that is asked to stop in its second pass.
use loadbear.Prelude.{
  ℕ, ◌-◌, ◌≡◌, refl, true, false, String, none, some, List, [], ◌∷◌, map, All, leb, arith,
}
use loadbear.Float.Fixed.{Fixed, nan, num, fixed_float}
use loadbear.Core.Spec.{amd}
use loadbear.Sensors.Shared.{
  SharedTemperature, max_zones, stale_after_ms, watts, tjmax, package_temp, zone_list,
  helper_is_current, is_fresh,
}
use loadbear.Sensors.Shared.Label.{take}
use loadbear.Sensors.Mapping.{payload}
use loadbear.Sensors.Temperature.Registers.{ok, Execute, TemperatureReading}
use loadbear.Sensors.Temperature.Amd.Fields.{die_register}
use loadbear.Sensors.Temperature.Intel.{Affinity}
use loadbear.Sensors.Temperature.Source.{WindowsTemperature, available}
use loadbear.Service.{Pass, out_of, sample_loop}
use loadbear.Service.Shown.{shown_zone, IsTrusted, out_of-shown, sample_loop-AreTrusted}

abbrev driver : Execute
driver function input words = ok (die_register 480 0 0 0 0 0 ∷ [])

abbrev source : WindowsTemperature Fixed
source = record {
  device = some driver;
  power = none;
  per_core = none;
  cores = 8;
  status = available;
  vendor = amd;
}

abbrev still : Affinity
still = record { previous = λ mask. 255; landed_on = λ mask. 2 }

abbrev first : Pass
first = record {
  stop = false;
  slices = false ∷ [];
  now = 1500;
  execute = driver;
  execute_table = driver;
  unit = none;
  counter = none;
}

abbrev passes : List Pass
passes = first ∷ record first { slices = true ∷ []; now = 3000 } ∷ record first { now = 4500 } ∷ []

abbrev letters : String → List ℕ
letters text = 67 ∷ 111 ∷ 114 ∷ 101 ∷ 32 ∷ 49 ∷ 48 ∷ 48 ∷ []

abbrev seen : List ℕ → String
seen bytes = "zone"

abbrev whole : ℕ → Fixed
whole bits = num bits 0

-- One record for each pass up to the stop.
times-sample_loop :
    map
      (λ r. r.timestamp_ms)
      (sample_loop letters nan (λ x. x) whole still (λ i. driver) none passes source)
    ≡ 1500 ∷ 3000 ∷ []
unfolding sample_loop
times-sample_loop = refl

sample_loop-AreTrusted_example :
    All
      (IsTrusted letters seen)
      (sample_loop letters nan (λ x. x) whole still (λ i. driver) none passes source)
sample_loop-AreTrusted_example =
    sample_loop-AreTrusted letters seen nan (λ x. x) whole still (λ i. driver) refl none passes
      source

abbrev warm : TemperatureReading Fixed
warm = record {
  package_c = some (num 60000 0);
  zones = record { label = "Core 100"; celsius = num 61000 0 } ∷ [];
}

abbrev written : SharedTemperature Fixed
written = payload (out_of letters nan 1500 warm none (some (num 95000 0))) 1

out_of-shown_example :
    (zone_list seen written ≡ map (shown_zone letters seen) (take max_zones warm.zones))
    × (package_temp written ≡ some (num 60000 0))
    × (watts written ≡ none)
    × (tjmax written ≡ some (num 95000 0))
    × (helper_is_current written ≡ true)
    × (is_fresh written 4000 ≡ leb (4000 - 1500) stale_after_ms)
out_of-shown_example =
    out_of-shown letters seen nan 1500 4000 1 warm none (some (num 95000 0)) refl refl tt refl (
      (
        refl,
        (
          omega arith,
          (
            omega arith,
            (
              omega arith,
              (omega arith, (omega arith, (omega arith, (omega arith, (omega arith, tt))))),
            ),
          ),
        ),
      ),
      tt,
    )
