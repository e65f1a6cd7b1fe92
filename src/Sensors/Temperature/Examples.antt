-- ===== src/Sensors/Temperature/Examples.antt =====
-- A machine with an AMD part.
use loadbear.Prelude.{ℕ, ◌≤◌, ◌≡◌, refl, none, some, [], ◌∷◌, length}
use loadbear.Float.Fixed.{Fixed, num, fixed_float}
use loadbear.Core.Spec.{amd}
use loadbear.Sensors.Shared.{max_zones}
use loadbear.Sensors.Temperature.Registers.{ok, Execute, empty_reading}
use loadbear.Sensors.Temperature.Credible.{IsCredible}
use loadbear.Sensors.Temperature.Amd.{read_amd_temperature, die_millideg}
use loadbear.Sensors.Temperature.Amd.Fields.{die_register}
use loadbear.Sensors.Temperature.Intel.{Affinity}
use loadbear.Sensors.Temperature.Source.{WindowsTemperature, read, available}
use loadbear.Sensors.Temperature.Source.Zones.{read-IsCredible}

-- 480 counts of an eighth of a degree.
abbrev register : ℕ
register = die_register 480 0 0 0 0 0

-- A driver that gives this register for everything.
abbrev driver : Execute
driver function input words = ok (register ∷ [])

abbrev source : WindowsTemperature Fixed
source = record {
  device = some driver;
  power = none;
  per_core = none;
  cores = 8;
  status = available;
  vendor = amd;
}

abbrev still : Affinity
still = record { previous = λ mask. 255; landed_on = λ mask. 2 }

abbrev warm_bits : ℕ → Fixed
warm_bits bits = num bits 0

read-IsCredible_example :
    IsCredible (read warm_bits still (λ i. driver) source)
    × (amd ≡ amd → length (read warm_bits still (λ i. driver) source).zones ≤ max_zones)
    × (some driver ≡ none → read warm_bits still (λ i. driver) source ≡ empty_reading)
read-IsCredible_example = read-IsCredible warm_bits still (λ i. driver) source

read-source :
    read warm_bits still (λ i. driver) source
    ≡ record { package_c = some (num 60000 0); zones = [] }
unfolding read read_amd_temperature die_millideg
read-source = refl
