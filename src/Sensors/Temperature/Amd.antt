-- ===== src/Sensors/Temperature/Amd.antt =====
-- crates/loadbear-sensors-windows/src/amd.rs: the die sensor and the sensors of the core complex dies. The
-- mutex around the reads is not modelled.
pub mod Zones
pub mod Fields
use Prim.Native.String.{◌++◌}
use loadbear.Prelude.{
  ℕ, zero, suc, ◌+◌, ◌*◌, ◌/◌, ◌%◌, ◌^◌, Bool, ◌||◌, Option, none, some, List, [], ◌∷◌, ◌==◌,
  if◌then◌else◌, show_ℕ, ℤ, pos, negsuc, sub_ℕ,
}
use loadbear.Float.{Float, zero_float}
use loadbear.Sensors.Temperature.Registers.{
  PawnIoError, Answer, ok, err, Execute, first_word, TemperatureZone, TemperatureReading,
  empty_reading, is_plausible_celsius,
}

abbrev pub smn_temp_base : ℕ
smn_temp_base = 0x59800

abbrev pub renoir_ccd_offset : ℕ
renoir_ccd_offset = 0x154

abbrev pub renoir_ccd_count : ℕ
renoir_ccd_count = 8

-- The millidegrees of the register: the reading above bit 21 counts eighths, and is shifted where bit 19
-- is set or bits 17 and 16 both are.
unfoldable pub die_millideg : ℕ → ℤ
die_millideg regval =
    if regval / 2 ^ 19 % 2 == 1 || regval / 2 ^ 16 % 4 == 3
    then sub_ℕ (regval / 2 ^ 21 * 125) 49000
    else pos (regval / 2 ^ 21 * 125)

-- Bit 11 says whether the lowest eleven bits hold a reading.
unfoldable pub ccd_millideg : ℕ → Option ℤ
ccd_millideg regval =
    if regval / 2 ^ 11 % 2 == 0 then none else some (sub_ℕ (regval % 2 ^ 11 * 125) 49000)

module _ {F : Type 0} ⦃f : Float F⦄ where
  -- `as f32 / 1000.0`
  abbrev pub degrees : ℤ → F
  degrees (pos n) = f.div (f.of_ℕ n) (f.decimal 10000 1)
  degrees (negsuc n) = f.div (f.sub zero_float (f.of_ℕ (suc n))) (f.decimal 10000 1)

  abbrev pub decode_die_temp : ℕ → F
  decode_die_temp regval = degrees (die_millideg regval)

  unfoldable pub decode_ccd_temp : ℕ → Option F
  unfolding ccd_millideg
  decode_ccd_temp regval = elim (ccd_millideg regval) [ none ↦ none | some m ↦ some (degrees m) ]

  -- A value that is plausible.
  plausible : F → Option F
  plausible c = if is_plausible_celsius c then some c else none

  package_of : Option ℕ → Option F
  unfolding plausible
  package_of none = none
  package_of (some raw) = plausible (decode_die_temp (raw % 2 ^ 32))

  -- A zone for a value that is there and plausible, before the others.
  ccd_zone : ℕ → Option F → List (TemperatureZone F) → List (TemperatureZone F)
  ccd_zone ccd none zones = zones
  ccd_zone ccd (some c) zones =
      if is_plausible_celsius c
      then record { label = "CCD" ++ show_ℕ ccd; celsius = c } ∷ zones
      else zones

  -- What one answer gives, and the zones of the dies after it; an error or an empty answer ends the loop.
  ccd_answer : ℕ → Answer → List (TemperatureZone F) → List (TemperatureZone F)
  unfolding ccd_zone decode_ccd_temp
  ccd_answer ccd (err e) rest = []
  ccd_answer ccd (ok []) rest = []
  ccd_answer ccd (ok (raw ∷ ws)) rest = ccd_zone ccd (decode_ccd_temp (raw % 2 ^ 32)) rest

  -- The loop over so many dies, from this one on.
  ccd_zones : Execute → ℕ → ℕ → List (TemperatureZone F)
  unfolding ccd_answer
  ccd_zones execute ccd zero = []
  ccd_zones execute ccd (suc n) =
      ccd_answer ccd
        (execute "ioctl_read_smn" ((smn_temp_base + renoir_ccd_offset + ccd * 4) ∷ []) 1)
        (ccd_zones execute (suc ccd) n)

  -- `read_amd_temperature` with `unwrap_or_default`: an error at the die sensor gives nothing.
  with_die : Execute → Answer → TemperatureReading F
  unfolding package_of ccd_zones
  with_die execute (err e) = empty_reading
  with_die execute (ok die) = record {
    package_c = package_of (first_word die);
    zones = ccd_zones execute 0 renoir_ccd_count;
  }

  unfoldable pub read_amd_temperature : Execute → TemperatureReading F
  unfolding with_die
  read_amd_temperature execute = with_die execute (execute "ioctl_read_smn" (smn_temp_base ∷ []) 1)
