-- ===== src/Sensors/Pawnio.antt =====
-- crates/loadbear-sensors-windows/src/pawnio.rs: the library of the driver. Environment variables, paths,
-- loading a library and what its functions answer are parameters.
pub mod Library
mod Examples
use text.Mathlib.Text.{◌==◌ as str_eq}
use loadbear.Prelude.{
  ℕ, zero, suc, Bool, true, false, any, String, Option, none, some, List, [], ◌∷◌, ◌++◌, length,
  ltb, ◌==◌, if◌then◌else◌, chars, filter_map,
}
use loadbear.Prelude.Calls.{Result}
use loadbear.Prelude.Calls
use loadbear.Sensors.Shared.Label.{take}
use loadbear.Sensors.Temperature.Registers.{
  Failure, access_denied, library_incomplete, module_load_failed, unexpected_response,
  function_unavailable, PawnIoError, not_installed, failed, Answer, ok, err, Execute,
}

abbrev pub lib_name : String
lib_name = "PawnIOLib.dll"

-- What `pawnio_execute` leaves: its result, the words of the buffer, and how many it says it wrote.
pub record Executed : Type 0 where
  pub hresult : ℕ
  pub out : List ℕ
  pub written : ℕ

-- A loaded library: its symbols, what they answer, with a result as 32 bits, and the handle that is opened.
pub record DriverLibrary : Type 0 where
  pub has : String → Bool
  pub open_result : ℕ
  pub open_handle : ℕ
  pub load_result : List ℕ → ℕ
  pub execute : String → List ℕ → ℕ → Executed

pub record PawnIo : Type 0 where
  pub lib : DriverLibrary
  pub handle : ℕ

-- The directories of the environment that are set, and the bare name.
pub candidate_paths : (String → Option String) → (String → String → String) → List String
candidate_paths var join =
    filter_map
      (λ name. elim (var name) [
        | none ↦ none
        | some dir ↦ some (join (join dir "PawnIO") lib_name)
      ])
      ("ProgramFiles" ∷ "ProgramFiles(x86)" ∷ "ProgramW6432" ∷ [])
    ++ lib_name ∷ []

pub from_hresult : ℕ → PawnIoError
from_hresult hr = if hr == 0x80070005 then failed access_denied else failed unexpected_response

-- `find_map`
first_loaded : (String → Option DriverLibrary) → List String → Option DriverLibrary
first_loaded loads [] = none
first_loaded loads (path ∷ paths) =
    let rest = first_loaded loads paths in elim (loads path) [ none ↦ rest | some lib ↦ some lib ]

opened_from : Option DriverLibrary → Result PawnIoError PawnIo
unfolding from_hresult
opened_from none = Calls.err not_installed
opened_from (some lib) =
    if lib.has "pawnio_open"
    then (if lib.open_result == 0
        then Calls.ok (record { lib = lib; handle = lib.open_handle })
        else Calls.err (from_hresult lib.open_result))
    else Calls.err (failed library_incomplete)

-- `PawnIo::open`
pub open_driver :
    (String → Option String)
    → (String → String → String)
    → (String → Option DriverLibrary)
    → Result PawnIoError PawnIo
unfolding candidate_paths first_loaded opened_from
open_driver var join loads = opened_from (first_loaded loads (candidate_paths var join))

pub load_module : PawnIo → List ℕ → Option PawnIoError
load_module p blob =
    if p.lib.has "pawnio_load"
    then (if p.lib.load_result blob == 0 then none else some (failed module_load_failed))
    else some (failed library_incomplete)

-- What the function left, with the buffer cut to what was written.
answered : String → Executed → Answer
answered name e =
    if e.hresult == 0
    then (if ltb (length e.out) e.written
        then err (failed unexpected_response)
        else ok (take e.written e.out))
    else err (failed (function_unavailable name))

-- `CString::new` refuses a name with a 0 in it.
pub execute : PawnIo → Execute
unfolding answered
execute p name input out_capacity =
    if any (λ c. c == 0) (chars name)
    then err (failed (function_unavailable name))
    else if p.lib.has "pawnio_execute"
    then answered name (p.lib.execute name input out_capacity)
    else err (failed library_incomplete)

-- `drop`: the handles that are closed.
pub closed_by : PawnIo → List ℕ
closed_by p = if p.handle == 0 then [] else if p.lib.has "pawnio_close" then p.handle ∷ [] else []
