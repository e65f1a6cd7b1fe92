-- ===== src/Sensors/Temperature/PmTable.antt =====
-- crates/loadbear-sensors-windows/src/pm_table.rs: temperatures of the cores from the power table. The
-- floating point number of 32 bits is a parameter.
pub mod Table
use loadbear.Prelude.{
  ℕ, zero, suc, ◌+◌, ◌*◌, ◌/◌, ◌%◌, ◌^◌, min, Bool, true, false, Option, none, some, List, [], ◌∷◌,
  ◌==◌, if◌then◌else◌, ◌>>=◌, unwrap_or, get_elem?, filter, filter_map,
}
use loadbear.Float.{Float}
use loadbear.Sensors.Temperature.Registers.{
  PawnIoError, Answer, ok, err, Execute, first_word, is_plausible_celsius,
}

abbrev pub pm_table_renoir : ℕ
pm_table_renoir = 0x370005

abbrev pub core_temp_index : ℕ
core_temp_index = 215

abbrev pub core_temp_count : ℕ
core_temp_count = 8

abbrev pub table_words : ℕ
table_words = 1024

-- The executor that has the module loaded, and whether the layout of the table is known.
pub record PerCoreTemperature : Type 0 where
  pub execute : Execute
  pub supported : Bool

resolved_as : Execute → Answer → Option PerCoreTemperature
resolved_as execute (err e) = none
resolved_as execute (ok resolved) =
    some (record {
      execute = execute;
      supported = unwrap_or (first_word resolved) 0 == pm_table_renoir;
    })

-- `new` with `ok`: the executor is there where it could be opened and its module loaded.
pub new : Option Execute → Option PerCoreTemperature
unfolding resolved_as
new opened = do execute ← opened; resolved_as execute (execute "ioctl_resolve_pm_table" [] 2)

-- `0..n`
abbrev pub range : ℕ → ℕ → List ℕ
range i zero = []
range i (suc n) = i ∷ range (suc i) n

module _ {F : Type 0} ⦃f : Float F⦄ (from_bits : ℕ → F) where
  -- The low half of a word comes first.
  pub float_at : List ℕ → ℕ → Option F
  float_at words float_index = do
    word ← get_elem? words (float_index / 2)
    let x = from_bits (word / 2 ^ (32 * (float_index % 2)) % 2 ^ 32)
    if f.is_finite x then some x else none

  words_of : ℕ → Answer → List F
  unfolding float_at
  words_of core_count (err e) = []
  words_of core_count (ok words) = filter is_plausible_celsius (
      filter_map (λ i. float_at words (core_temp_index + i))
        (range 0 (min core_count core_temp_count)))

  -- What the refresh of the table answers comes before the table.
  refreshed : Execute → ℕ → Answer → List F
  unfolding words_of
  refreshed execute core_count (err e) = []
  refreshed execute core_count (ok ws) =
      words_of core_count (execute "ioctl_read_pm_table" [] table_words)

  pub read : PerCoreTemperature → ℕ → List F
  unfolding refreshed
  read pc core_count =
      if pc.supported
      then refreshed pc.execute core_count (pc.execute "ioctl_update_pm_table" [] 0)
      else []
