-- ===== src/Sensors/Temperature/Source/Zones.antt =====
-- The readings of a source.
use loadbear.Prelude.{
  ℕ, suc, ◌≤◌, ◌≡◌, refl, Option, none, some, List, [], ◌∷◌, All, All-append, length, length-append,
  arith,
}
use loadbear.Float.{Float}
use loadbear.Core.Spec.{Vendor, amd, intel, other}
use loadbear.Sensors.Shared.{max_zones}
use loadbear.Sensors.Temperature.Registers.{Execute, empty_reading}
use loadbear.Sensors.Temperature.Credible.{IsPlausible, AllPlausible, IsCredible}
use loadbear.Sensors.Temperature.Amd.{read_amd_temperature}
use loadbear.Sensors.Temperature.Amd.Zones.{read_amd_temperature-IsCredible}
use loadbear.Sensors.Temperature.Intel.{Affinity}
use loadbear.Sensors.Temperature.Intel.Zones.{read_intel_temperature-IsCredible}
use loadbear.Sensors.Temperature.PmTable.{PerCoreTemperature, core_temp_count}
use loadbear.Sensors.Temperature.PmTable
use loadbear.Sensors.Temperature.PmTable.Table.{read-AllPlausible}
use loadbear.Sensors.Temperature.Source.{
  WindowsTemperature, core_zones, per_core_zones, read_device, reading_from, read,
}

module _ {F : Type 0} ⦃f : Float F⦄ where
  core_zones-AllPlausible :
      (i : ℕ) (cs : List F)
      → All IsPlausible cs
      → AllPlausible (core_zones i cs) × (length (core_zones i cs) ≡ length cs)
  unfolding core_zones
  core_zones-AllPlausible i [] a = (tt, refl)
  core_zones-AllPlausible i (c ∷ cs) a =
      let rest = core_zones-AllPlausible (suc i) cs a.1 in ((a.0, rest.0), omega (arith, rest.1))

  per_core_zones-AllPlausible :
      (from_bits : ℕ → F) (cores : ℕ) (o : Option PerCoreTemperature)
      → AllPlausible (per_core_zones from_bits cores o)
        × (length (per_core_zones from_bits cores o) ≤ core_temp_count)
  unfolding per_core_zones
  per_core_zones-AllPlausible from_bits cores none = (tt, omega arith)
  per_core_zones-AllPlausible from_bits cores (some pc) =
      let table = read-AllPlausible from_bits pc cores in
      let zones = core_zones-AllPlausible 0 (PmTable.read from_bits pc cores) table.0 in
      (zones.0, omega (arith, zones.1, table.1))

module _ {D F : Type 0} ⦃f : Float F⦄ (from_bits : ℕ → F) (affinity : Affinity)
    (execute_on : ℕ → Execute) where
  read_device-IsCredible :
      (t : WindowsTemperature D) (execute : Execute) (v : Vendor)
      → IsCredible (read_device from_bits affinity execute_on t execute v)
        × (v ≡ amd
            → length (read_device from_bits affinity execute_on t execute v).zones ≤ max_zones)
  unfolding read_device
  read_device-IsCredible t execute amd =
      let die = read_amd_temperature-IsCredible F execute in
      let cores = per_core_zones-AllPlausible from_bits t.cores t.per_core in
      (
        (die.0.0, All-append _ (read_amd_temperature execute).zones _ die.0.1 cores.0),
        λ e. omega (
          arith,
          length-append (read_amd_temperature {F = F} execute).zones
              (per_core_zones from_bits t.cores t.per_core),
          die.1,
          cores.1,
        ),
      )
  read_device-IsCredible t execute intel = (
    read_intel_temperature-IsCredible F affinity execute_on execute t.cores,
    λ e. absurd (cc (e)),
  )
  read_device-IsCredible t execute other = ((tt, tt), λ e. omega arith)

  -- Whatever the driver answers, a reading holds only temperatures between 5 and 125 degrees, of the
  -- package and of each zone; there is none without a device; and on an AMD part the zones are at most
  -- sixteen, as many as the shared record has places for.
  pub read-IsCredible :
      (t : WindowsTemperature D)
      → IsCredible (read from_bits affinity execute_on t)
        × (t.vendor ≡ amd → length (read from_bits affinity execute_on t).zones ≤ max_zones)
        × (t.device ≡ none → read from_bits affinity execute_on t ≡ empty_reading)
  unfolding read reading_from
  read-IsCredible t = of_device t.device
    where
      of_device :
          (o : Option Execute)
          → IsCredible (reading_from from_bits affinity execute_on t o)
            × (t.vendor ≡ amd
                → length (reading_from from_bits affinity execute_on t o).zones ≤ max_zones)
            × (o ≡ none → reading_from from_bits affinity execute_on t o ≡ empty_reading)
      of_device none = ((tt, tt), λ e. omega arith, λ e. refl)
      of_device (some execute) =
          let r = read_device-IsCredible t execute t.vendor in (r.0, r.1, λ e. absurd (cc (e)))
