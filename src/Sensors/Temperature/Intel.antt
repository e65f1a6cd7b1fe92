-- ===== src/Sensors/Temperature/Intel.antt =====
-- crates/loadbear-sensors-windows/src/intel.rs, and `on_processor` of topology.rs: temperatures below the
-- junction limit, one for each logical processor. The affinity calls are parameters.
pub mod Zones
use Prim.Native.String.{◌++◌}
use loadbear.Prelude.{
  ℕ, zero, suc, ◌/◌, ◌%◌, ◌^◌, Bool, Option, none, some, List, [], ◌∷◌, ltb, ◌==◌, if◌then◌else◌,
  ◌>>=◌, show_ℕ,
}
use loadbear.Float.{Float}
use loadbear.Sensors.Temperature.Registers.{
  Answer, ok, err, Execute, first_word, TemperatureZone, TemperatureReading, empty_reading,
  is_plausible_celsius,
}

abbrev pub msr_therm_status : ℕ
msr_therm_status = 0x19c

abbrev pub msr_package_therm_status : ℕ
msr_package_therm_status = 0x1b1

abbrev pub msr_temperature_target : ℕ
msr_temperature_target = 0x1a2

abbrev pub max_affinity_index : ℕ
max_affinity_index = 63

-- The affinity of the calling thread: the mask that a change replaces, 0 where it fails, and the
-- processor on which the thread then runs.
pub record Affinity : Type 0 where
  pub previous : ℕ → ℕ
  pub landed_on : ℕ → ℕ

-- What `on_processor` gives, and the masks that it sets, in order. The function is given as its result.
pub on_processor : {A : Type 0} → Affinity → ℕ → A → Option A × List ℕ
on_processor affinity index result =
    let mask = 2 ^ index in
    let previous = affinity.previous mask in
    if ltb max_affinity_index index
    then (none, [])
    else if previous == 0
    then (none, mask ∷ [])
    else ((if affinity.landed_on mask == index then some result else none), mask ∷ previous ∷ [])

answered : Answer → Option ℕ
answered (err e) = none
answered (ok out) = first_word out

pub read_msr : Execute → ℕ → Option ℕ
unfolding answered
read_msr execute msr = answered (execute "ioctl_read_msr" (msr ∷ []) 1)

module _ {F : Type 0} ⦃f : Float F⦄ where
  abbrev pub min_plausible_tjmax_c : F
  min_plausible_tjmax_c = f.decimal 850 1

  -- Bits 16 to 23.
  pub tjmax_from_msr : ℕ → Option F
  tjmax_from_msr raw =
      let value = f.of_ℕ (raw / 2 ^ 16 % 2 ^ 8) in
      if f.le min_plausible_tjmax_c value then some value else none

  -- Bit 31 says whether bits 16 to 22 hold the distance below the limit.
  pub decode_digital_readout : ℕ → F → Option F
  decode_digital_readout raw tjmax_c =
      let celsius = f.sub tjmax_c (f.of_ℕ (raw / 2 ^ 16 % 2 ^ 7)) in
      if raw / 2 ^ 31 % 2 == 0
      then none
      else if is_plausible_celsius celsius
      then some celsius
      else none

  pub read_tjmax : Execute → Option F
  unfolding read_msr
  read_tjmax execute = do raw ← read_msr execute msr_temperature_target; tjmax_from_msr raw

  -- A zone for a value that is there, before the others.
  core_zone : ℕ → Option F → List (TemperatureZone F) → List (TemperatureZone F)
  core_zone i none zones = zones
  core_zone i (some c) zones = record { label = "Core " ++ show_ℕ i; celsius = c } ∷ zones

  -- The reading of one processor: `execute_on` is what the driver answers on it.
  readout_on : Affinity → (ℕ → Execute) → F → ℕ → Option F
  unfolding on_processor read_msr
  readout_on affinity execute_on tjmax i = do
    here ← (on_processor affinity i (read_msr (execute_on i) msr_therm_status)).0
    raw ← here
    decode_digital_readout raw tjmax

  -- The loop over so many processors, from this one on.
  core_zones : Affinity → (ℕ → Execute) → F → ℕ → ℕ → List (TemperatureZone F)
  unfolding core_zone readout_on
  core_zones affinity execute_on tjmax i zero = []
  core_zones affinity execute_on tjmax i (suc n) =
      core_zone i (readout_on affinity execute_on tjmax i)
        (core_zones affinity execute_on tjmax (suc i) n)

  with_tjmax : Affinity → (ℕ → Execute) → Execute → ℕ → Option F → TemperatureReading F
  unfolding core_zones
  with_tjmax affinity execute_on execute logical_processors none = empty_reading
  with_tjmax affinity execute_on execute logical_processors (some tjmax) = record {
    package_c = (do
      raw ← read_msr execute msr_package_therm_status
      decode_digital_readout raw tjmax);
    zones = core_zones affinity execute_on tjmax 0 logical_processors;
  }

  pub read_intel_temperature : Affinity → (ℕ → Execute) → Execute → ℕ → TemperatureReading F
  unfolding with_tjmax read_tjmax
  read_intel_temperature affinity execute_on execute logical_processors =
      with_tjmax affinity execute_on execute logical_processors (read_tjmax execute)
