-- ===== src/Service.antt =====
-- crates/loadbear-service/src/main.rs: the loop of the helper, from the temperature source to the record
-- that is published. The bytes of a text, the NaN that stands for no reading and what the driver and the
-- clock answer in a pass are parameters.
pub mod Shown
pub mod Setup
pub mod Run
pub mod PmTable
mod Examples
use loadbear.Prelude.{
  ℕ, zero, suc, min, Bool, false, String, Option, none, some, List, [], ◌∷◌, map, length,
  if◌then◌else◌, ◌>>=◌, ◌||◌, unwrap_or, any,
}
use loadbear.Float.{Float}
use loadbear.Sensors.Shared.{
  SharedTemperature, layout_version, helper_revision, max_zones, set_label,
}
use loadbear.Sensors.Shared.Label.{take}
use loadbear.Sensors.Temperature.Registers.{Execute, TemperatureZone, TemperatureReading}
use loadbear.Sensors.Temperature.Intel.{Affinity}
use loadbear.Sensors.Temperature.Source.{WindowsTemperature, read, package_watts}

-- An array of so many entries.
abbrev pub replicate : {A : Type 0} → ℕ → A → List A
replicate zero x = []
replicate (suc n) x = x ∷ replicate n x

-- The loop that sets the first entries of an array.
abbrev pub overwrite : {A : Type 0} → List A → List A → List A
overwrite [] slots = slots
overwrite (x ∷ xs) [] = []
overwrite (x ∷ xs) (s ∷ slots) = x ∷ overwrite xs slots

-- What a pass of the loop meets: whether it is asked to stop, before it and in the slices of its sleep,
-- the clock, the driver for temperatures and for the table, and the registers of the power.
pub record Pass : Type 0 where
  pub stop : Bool
  pub slices : List Bool
  pub now : ℕ
  pub execute : Execute
  pub execute_table : Execute
  pub unit : Option ℕ
  pub counter : Option ℕ

module _ {F : Type 0} ⦃f : Float F⦄ (bytes : String → List ℕ) (nan : F) where
  -- `default`
  abbrev pub default_record : SharedTemperature F
  default_record = record {
    version = layout_version;
    revision = helper_revision;
    sequence = 0;
    timestamp_ms = 0;
    package_c = nan;
    package_watts = nan;
    tjmax_c = nan;
    zone_count = 0;
    zones = replicate max_zones nan;
    zone_labels = replicate max_zones (replicate 8 0);
  }

  -- The record `out` of a pass.
  pub out_of : ℕ → TemperatureReading F → Option F → Option F → SharedTemperature F
  out_of now reading watts tjmax =
      let n = min (length reading.zones) max_zones in
      let slots = default_record in
      record slots {
        timestamp_ms = now;
        package_c = unwrap_or reading.package_c nan;
        package_watts = unwrap_or watts nan;
        tjmax_c = unwrap_or tjmax nan;
        zone_count = n;
        zones = overwrite (map (λ z. z.celsius) (take n reading.zones)) slots.zones;
        zone_labels =
            overwrite (map (λ z. set_label (bytes z.label)) (take n reading.zones))
              slots.zone_labels;
      }

module _ {D : Type 0} where
  -- The source, with what its drivers answer in this pass.
  abbrev pub source_at : Pass → WindowsTemperature D → WindowsTemperature D
  source_at p t = record t {
    device = (do opened ← t.device; some p.execute);
    per_core = (do pc ← t.per_core; some (record pc { execute = p.execute_table }));
  }

module _ {D F : Type 0} ⦃d : Float D⦄ ⦃f : Float F⦄ (bytes : String → List ℕ) (nan : F)
    (as_f32 : D → F) (from_bits : ℕ → F) (affinity : Affinity) (execute_on : ℕ → Execute) where
  -- The source after a pass, and the record that is published.
  pub sample : Option F → Pass → WindowsTemperature D → WindowsTemperature D × SharedTemperature F
  unfolding out_of
  sample tjmax p t =
      let source = source_at p t in
      let after = package_watts as_f32 source p.unit p.counter p.now in
      (after.0, out_of bytes nan p.now (read from_bits affinity execute_on source) after.1 tjmax)

  -- The records that are published, in order. A stop ends the loop before a pass or in its sleep.
  pub sample_loop : Option F → List Pass → WindowsTemperature D → List (SharedTemperature F)
  unfolding sample
  sample_loop tjmax [] t = []
  sample_loop tjmax (p ∷ ps) t =
      let after = sample tjmax p t in
      let rest = sample_loop tjmax ps after.0 in
      if p.stop then [] else after.1 ∷ (if any (λ b. b) p.slices then [] else rest)
