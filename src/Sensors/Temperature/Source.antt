-- ===== src/Sensors/Temperature/Source.antt =====
-- crates/loadbear-sensors-windows/src/temperature.rs: `WindowsTemperature`. Opening the driver, loading a
-- module, what an error prints and the counts of processors are parameters.
pub mod Zones
pub mod Status
use loadbear.Prelude.{
  ℕ, suc, Bool, true, false, String, Option, none, some, List, [], ◌∷◌, if◌then◌else◌, ◌>>=◌,
  unwrap_or, ◌++◌, show_ℕ, concat,
}
use loadbear.Float.{Float}
use loadbear.Core.Spec.{Vendor, amd, intel, other, CpuKey}
use loadbear.Sensors.Power.{PackagePower}
use loadbear.Sensors.Power
use loadbear.Sensors.Temperature.Registers.{
  PawnIoError, not_installed, failed, Execute, TemperatureZone, TemperatureReading, empty_reading,
}
use loadbear.Sensors.Temperature.Amd.{read_amd_temperature}
use loadbear.Sensors.Temperature.Intel.{Affinity, read_tjmax, read_intel_temperature}
use loadbear.Sensors.Temperature.PmTable.{PerCoreTemperature}
use loadbear.Sensors.Temperature.PmTable

pub data Remedy : Type 0 where
  install_driver : String → Remedy
  no_remedy : Remedy

pub data TemperatureStatus : Type 0 where
  available : TemperatureStatus
  unavailable : String → Remedy → TemperatureStatus

abbrev pub is_available : TemperatureStatus → Bool
is_available available = true
is_available (unavailable _ _) = false

abbrev pub pawnio_url : String
pawnio_url = "https://pawnio.eu"

pub record WindowsTemperature (D : Type 0) : Type 0 where
  pub device : Option Execute
  pub power : Option (PackagePower D)
  pub per_core : Option PerCoreTemperature
  pub cores : ℕ
  pub status : TemperatureStatus
  pub vendor : Vendor

pub data Opened : Type 0 where
  opened : Execute → Opened
  refused : PawnIoError → Opened

-- What the machine and the driver answer when the source is made. `load` gives the error of loading the
-- module for this vendor, where there is one.
pub record Machine : Type 0 where
  pub topology_processors : Option ℕ
  pub parallelism : Option ℕ
  pub open_driver : Opened
  pub load : Vendor → Option PawnIoError
  pub per_core : Option PerCoreTemperature
  pub to_string : PawnIoError → String

abbrev pub cores_of : Machine → ℕ
cores_of m = elim m.topology_processors [ some n ↦ n | none ↦ unwrap_or m.parallelism 8 ]

abbrev pub vendor_of : Option CpuKey → Vendor
vendor_of none = other
vendor_of (some key) = key.vendor

-- The table of an AMD part, where its layout is known.
per_core_for : Machine → Vendor → Option PerCoreTemperature
per_core_for m amd = do p ← m.per_core; if p.supported then some p else none
per_core_for m intel = none
per_core_for m other = none

module _ {D : Type 0} where
  -- A source without a device.
  abbrev pub without : Machine → Vendor → String → Remedy → WindowsTemperature D
  without m vendor reason remedy = record {
    device = none;
    power = none;
    per_core = none;
    cores = cores_of m;
    status = unavailable reason remedy;
    vendor = vendor;
  }

  -- Once the driver is open: the module for the vendor is loaded.
  loaded : Machine → Vendor → Execute → Option PawnIoError → WindowsTemperature D
  unfolding per_core_for
  loaded m vendor execute (some e) =
      without m vendor
        (concat ("No temperature module supports this processor. " ∷ m.to_string e ∷ [])) no_remedy
  loaded m vendor execute none = record {
    device = some execute;
    power = none;
    per_core = per_core_for m vendor;
    cores = cores_of m;
    status = available;
    vendor = vendor;
  }

  with_device : Machine → Vendor → Execute → WindowsTemperature D
  unfolding loaded
  with_device m amd execute = loaded m amd execute (m.load amd)
  with_device m intel execute = loaded m intel execute (m.load intel)
  with_device m other execute =
      without m other "This processor vendor is not supported for temperature." no_remedy

  with_driver : Machine → Vendor → Opened → WindowsTemperature D
  unfolding with_device
  with_driver m vendor (opened execute) = with_device m vendor execute
  with_driver m vendor (refused not_installed) =
      without m vendor
        "LoadBear does not ship a kernel driver. Install PawnIO to enable temperature monitoring."
        (install_driver pawnio_url)
  with_driver m vendor (refused (failed e)) = without m vendor (m.to_string (failed e)) no_remedy

  pub new : Machine → Option CpuKey → WindowsTemperature D
  unfolding with_driver
  new m key = with_driver m (vendor_of key) m.open_driver

module _ {D F : Type 0} ⦃d : Float D⦄ ⦃f : Float F⦄ (as_f32 : D → F) where
  -- The power source after the call and what it gives, from the one that is there.
  power_reading : Option (PackagePower D) → Option ℕ → ℕ → Option (PackagePower D) × Option F
  power_reading none counter now_ms = (none, none)
  power_reading (some p) counter now_ms =
      let after = Power.read as_f32 p counter now_ms in (some after.0, after.1)

  -- The power source, made at the first call from the register of the energy unit.
  power_source : Option (PackagePower D) → Option ℕ → Option (PackagePower D)
  power_source none unit = Power.new unit
  power_source (some p) unit = some p

  pub package_watts :
      WindowsTemperature D → Option ℕ → Option ℕ → ℕ → WindowsTemperature D × Option F
  unfolding power_reading power_source
  package_watts t unit counter now_ms = elim t.device [
    | none ↦ (t, none)
    | some execute ↦
        let after = power_reading (power_source t.power unit) counter now_ms in
        (record t { power = after.0 }, after.1)
  ]

module _ {F : Type 0} ⦃f : Float F⦄ where
  tjmax_for : Vendor → Execute → Option F
  tjmax_for intel execute = read_tjmax execute
  tjmax_for amd execute = none
  tjmax_for other execute = none

  -- The zones of the cores, from this number on.
  core_zones : ℕ → List F → List (TemperatureZone F)
  core_zones i [] = []
  core_zones i (c ∷ cs) =
      record { label = concat ("Core " ∷ show_ℕ i ∷ []); celsius = c } ∷ core_zones (suc i) cs

  per_core_zones : (ℕ → F) → ℕ → Option PerCoreTemperature → List (TemperatureZone F)
  unfolding core_zones
  per_core_zones from_bits cores none = []
  per_core_zones from_bits cores (some pc) = core_zones 0 (PmTable.read from_bits pc cores)

module _ {D F : Type 0} ⦃f : Float F⦄ where
  pub tjmax_c : WindowsTemperature D → Option F
  unfolding tjmax_for
  tjmax_c t = do execute ← t.device; tjmax_for t.vendor execute

  -- The reading of a source with this device.
  read_device :
      (ℕ → F)
      → Affinity
      → (ℕ → Execute)
      → WindowsTemperature D
      → Execute
      → Vendor
      → TemperatureReading F
  unfolding per_core_zones
  read_device from_bits affinity execute_on t execute amd =
      let r = read_amd_temperature execute in
      record r { zones = r.zones ++ per_core_zones from_bits t.cores t.per_core }
  read_device from_bits affinity execute_on t execute intel =
      read_intel_temperature affinity execute_on execute t.cores
  read_device from_bits affinity execute_on t execute other = empty_reading

  -- The reading, where there is a device.
  reading_from :
      (ℕ → F)
      → Affinity
      → (ℕ → Execute)
      → WindowsTemperature D
      → Option Execute
      → TemperatureReading F
  unfolding read_device
  reading_from from_bits affinity execute_on t none = empty_reading
  reading_from from_bits affinity execute_on t (some execute) =
      read_device from_bits affinity execute_on t execute t.vendor

  unfoldable pub read :
      (ℕ → F) → Affinity → (ℕ → Execute) → WindowsTemperature D → TemperatureReading F
  unfolding reading_from
  read from_bits affinity execute_on t = reading_from from_bits affinity execute_on t t.device
