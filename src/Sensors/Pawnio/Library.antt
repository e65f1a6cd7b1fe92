-- ===== src/Sensors/Pawnio/Library.antt =====
-- Where the library is found, and what a call of it can return.
use loadbear.Prelude.{
  ℕ, ◌≤◌, ◌≡◌, ◌↔◌, refl, inl, inr, true, false, any, String, Option, none, List, [], ◌∷◌, arith,
  length, ◌==◌, chars, All, Option-cases,
}
use loadbear.Prelude.Calls.{Result}
use loadbear.Prelude.Calls
use loadbear.Sensors.Shared.Label.{take}
use loadbear.Sensors.Temperature.Registers.{not_installed, ok}
use loadbear.Sensors.Pawnio.{
  DriverLibrary, PawnIo, candidate_paths, from_hresult, first_loaded, opened_from, open_driver,
  answered, execute,
}

first_loaded_iff :
    (loads : String → Option DriverLibrary) (paths : List String)
    → (first_loaded loads paths ≡ none) ↔ All (λ path. loads path ≡ none) paths
unfolding first_loaded
first_loaded_iff loads [] = ((λ h. tt), (λ h. refl))
first_loaded_iff loads (path ∷ paths) =
    let rest = first_loaded_iff loads paths in
    elim (Option-cases (loads path)) [
      | inl e ↦ ((λ h. (e, rest.0 (ground arith))), (λ h. let missing = rest.1 h.1 in ground arith))
      | inr (lib, e) ↦ ((λ h. absurd (ground arith)), (λ h. absurd (ground arith)))
    ]

-- The driver counts as not installed exactly where none of the places it may be in, the bare name included,
-- has a library that loads: no other failure is told as that.
pub open_driver_iff :
    (var : String → Option String) (join : String → String → String)
    (loads : String → Option DriverLibrary)
    → (open_driver var join loads ≡ Calls.err not_installed)
      ↔ All (λ path. loads path ≡ none) (candidate_paths var join)
unfolding open_driver opened_from from_hresult
open_driver_iff var join loads =
    let places = candidate_paths var join in
    let found = first_loaded_iff loads places in
    ((λ h. found.0 (ground arith)), (λ h. let missing = found.1 h in ground arith))

-- An answer is what the function wrote of the buffer, after it succeeded and claimed no more than the buffer
-- holds; anything else is an error.
pub execute_iff :
    (p : PawnIo) (name : String) (input : List ℕ) (capacity : ℕ) (words : List ℕ)
    → let e = p.lib.execute name input capacity in
      (execute p name input capacity ≡ ok words) ↔ (
        (any (λ c. c == 0) (chars name) ≡ false)
        × (p.lib.has "pawnio_execute" ≡ true)
        × (e.hresult ≡ 0)
        × (e.written ≤ length e.out)
        × (words ≡ take e.written e.out))
unfolding execute answered
execute_iff p name input capacity words = ((λ h. ground arith), (λ h. ground arith))
