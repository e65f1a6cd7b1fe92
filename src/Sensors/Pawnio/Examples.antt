-- ===== src/Sensors/Pawnio/Examples.antt =====
-- A library in the second place.
use loadbear.Prelude.{
  ◌≡◌, ◌↔◌, refl, true, String, Option, none, some, [], ◌∷◌, if◌then◌else◌, All, concat,
}
use text.Mathlib.Text.{◌==◌ as str_eq}
use loadbear.Prelude.Calls.{Result}
use loadbear.Prelude.Calls
use loadbear.Sensors.Temperature.Registers.{not_installed}
use loadbear.Sensors.Pawnio.{DriverLibrary, candidate_paths, open_driver}
use loadbear.Sensors.Pawnio.Library.{open_driver_iff}

abbrev var : String → Option String
var name = if str_eq name "ProgramFiles" then some "C:\\Program Files" else none

abbrev join : String → String → String
join dir file = concat (dir ∷ "\\" ∷ file ∷ [])

-- One word is written, whatever is asked.
abbrev library : DriverLibrary
library = record {
  has = λ symbol. true;
  open_result = 0;
  open_handle = 7;
  load_result = λ blob. 0;
  execute = λ name input capacity. record { hresult = 0; out = 5 ∷ 0 ∷ []; written = 1 };
}

abbrev loads : String → Option DriverLibrary
loads path = if str_eq path "PawnIOLib.dll" then some library else none

paths-var :
    candidate_paths var join ≡ "C:\\Program Files\\PawnIO\\PawnIOLib.dll" ∷ "PawnIOLib.dll" ∷ []
unfolding candidate_paths
paths-var = refl

open_driver_iff_example :
    (open_driver var join loads ≡ Calls.err not_installed)
    ↔ All (λ path. loads path ≡ none) (candidate_paths var join)
open_driver_iff_example = open_driver_iff var join loads
