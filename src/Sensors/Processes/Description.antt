-- ===== src/Sensors/Processes/Description.antt =====
-- crates/loadbear-sensors-windows/src/processes.rs: `file_description`, `translation` and `enumerate_pids`.
-- What the system answers about the version resource of a file, and the decoding of UTF-16, are parameters.
pub mod Tidy
pub mod Runs
mod Examples
use loadbear.Prelude.{
  ℕ, zero, suc, ◌+◌, ◌*◌, ◌/◌, ◌%◌, ◌^◌, Bool, true, false, not, Option, none, some, List, [], ◌∷◌,
  ◌++◌, ltb, ◌==◌, if◌then◌else◌, ◌>>=◌, chars, trim,
}
use loadbear.Sensors.Shared.Label.{take}
use loadbear.Sensors.Processes.{non_empty}

abbrev pub max_processes : ℕ
max_processes = 4096

-- What the enumeration leaves, where it succeeds: the buffer of pids, and how many bytes it wrote.
pub record Enumerated : Type 0 where
  pub pids : List ℕ
  pub returned_bytes : ℕ

pub enumerate_pids : Option Enumerated → List ℕ
enumerate_pids none = []
enumerate_pids (some e) = take (e.returned_bytes / 4) e.pids

-- What a query of the resource leaves, where it succeeds: whether the pointer is null, the units of 16
-- bits from it on, and the length that is given.
pub record Value : Type 0 where
  pub is_null : Bool
  pub units : List ℕ
  pub len : ℕ

-- The version resource of a file: its size, whether it can be read, and its values by their keys.
pub record Version : Type 0 where
  pub size : ℕ
  pub loads : Bool
  pub query : List ℕ → Option Value

abbrev pub translation_key : List ℕ
translation_key = chars "\\VarFileInfo\\Translation"

-- The first two units.
abbrev pair_of : List ℕ → Option (ℕ × ℕ)
pair_of [] = none
pair_of (l ∷ []) = none
pair_of (l ∷ c ∷ units) = some (l, c)

-- `translation`, where the length is one of bytes.
translation : Version → Option (ℕ × ℕ)
translation v = do
  value ← v.query translation_key
  if value.is_null then none else if ltb value.len 4 then none else pair_of value.units

-- A digit of `{:x}`.
abbrev pub hex_digit : ℕ → ℕ
hex_digit d = if ltb d 10 then 48 + d else 87 + d

-- `{:04x}` of a number of 16 bits.
abbrev pub hex4 : ℕ → List ℕ
hex4 n =
    hex_digit (n / 4096 % 16)
    ∷ hex_digit (n / 256 % 16)
    ∷ hex_digit (n / 16 % 16)
    ∷ hex_digit (n % 16)
    ∷ []

pub description_key : ℕ → ℕ → List ℕ
description_key language codepage =
    chars "\\StringFileInfo\\" ++ hex4 language ++ hex4 codepage ++ chars "\\FileDescription"

-- `trim_end_matches('\0')`
pub without_nuls : List ℕ → List ℕ
without_nuls [] = []
without_nuls (c ∷ s) = elim (without_nuls s) [
  | [] ↦ if c == 0 then [] else c ∷ []
  | e ∷ t ↦ c ∷ e ∷ t
]

-- The text of a value that was found.
text_of : (List ℕ → List ℕ) → Value → Option (List ℕ)
unfolding without_nuls
text_of utf16 value =
    if value.is_null
    then none
    else if value.len == 0
    then none
    else non_empty (trim (without_nuls (utf16 (take value.len value.units))))

pub file_description : (List ℕ → List ℕ) → Version → Option (List ℕ)
unfolding translation description_key text_of
file_description utf16 v = if v.size == 0 then none else if not v.loads then none else (do
  pair ← translation v
  value ← v.query (description_key pair.0 pair.1)
  text_of utf16 value)
