-- ===== src/Sensors/Temperature/Registers.antt =====
-- What amd.rs, intel.rs and pm_table.rs of crates/loadbear-sensors-windows/src share: a reading, and the
-- driver, whose answer to each call is a parameter.
use loadbear.Prelude.{ℕ, Bool, ◌&&◌, String, Option, none, some, List, [], ◌∷◌}
use loadbear.Float.{Float}

-- `PawnIoError`, apart from `NotInstalled`.
pub data Failure : Type 0 where
  access_denied library_incomplete module_load_failed unexpected_response : Failure
  function_unavailable : String → Failure

pub data PawnIoError : Type 0 where
  not_installed : PawnIoError
  failed : Failure → PawnIoError

pub data Answer : Type 0 where
  ok : List ℕ → Answer
  err : PawnIoError → Answer

-- `PawnIo::execute`: the function, its input, and how many words are asked for.
abbrev pub Execute : Type 0
Execute = String → List ℕ → ℕ → Answer

-- `first` of what was answered.
abbrev pub first_word : List ℕ → Option ℕ
first_word [] = none
first_word (w ∷ ws) = some w

pub record TemperatureZone (F : Type 0) : Type 0 where
  pub label : String
  pub celsius : F

pub record TemperatureReading (F : Type 0) : Type 0 where
  pub package_c : Option F
  pub zones : List (TemperatureZone F)

-- `TemperatureReading::default`
abbrev pub empty_reading : {F : Type 0} → TemperatureReading F
empty_reading = record { package_c = none; zones = [] }

module _ {F : Type 0} ⦃f : Float F⦄ where
  abbrev pub is_plausible_celsius : F → Bool
  is_plausible_celsius v = f.le (f.decimal 50 1) v && f.le v (f.decimal 1250 1)
