-- ===== src/Sensors/ServiceControl/Stages.antt =====
-- The stages of an installation of the helper.
use text.Mathlib.Text.{◌==◌ as str_eq}
use loadbear.Prelude.{
  ℕ, ◌≡◌, ◌==◌, ◌&&◌, Bool, true, false, String, Option, none, some, List, [], ◌∷◌, if◌then◌else◌,
  ◌>>=◌,
}
use loadbear.Prelude.Calls.{Result, ok, err}
use loadbear.Sensors.ServiceControl.Removal.{Removal, unopened, clear, after_removal}
use loadbear.Sensors.ServiceControl.{
  ServiceState, is_running_state, Call, connect, query_status, sleep, create_dir_all, copy,
  create_service, start_service, ServiceError, Host, installed_helper_path, helper_path,
}

-- How far an installation is: nothing was done; the old service is being removed; the helper is copied to
-- its place; it is registered; it is registered and not known to run; it was started; it runs, or had 600 ms
-- after its start; a step failed.
pub data Stage : Type 0 where
  begun placed entered halted started_up up over : Stage
  removing : Removal → Stage

abbrev pub next : Bool → Stage → Stage
next true stage = stage
next false stage = over

abbrev pub lift : Option Removal → Option Stage
lift none = none
lift (some r) = some (removing r)

-- `here` says whether the helper stands in its place before, `source` and `exe` are its two places.
module _ (b : Bool) (states : ℕ → Option ServiceState) (here : Bool) (source exe : String) where
  -- The stage after a call once the old service is gone.
  abbrev after_clear : Call → Option Stage
  after_clear (create_dir_all dir) = if here then none else some (removing clear)
  after_clear (copy from to a) =
      if here
      then none
      else if str_eq from source && str_eq to exe
      then some (next a placed)
      else none
  after_clear (create_service path a) =
      if here && str_eq path exe then some (next a entered) else none
  after_clear _ = none

  abbrev after_placed : Call → Option Stage
  after_placed (create_service path a) = if str_eq path exe then some (next a entered) else none
  after_placed _ = none

  -- The stage after a call, where the call is allowed at that stage.
  unfoldable pub after_call : Stage → Call → Option Stage
  after_call begun (connect a) = some (next a (removing unopened))
  after_call (removing clear) c = after_clear c
  after_call (removing r) c = lift (after_removal b states r c)
  after_call placed c = after_placed c
  after_call entered (query_status a) = some (if is_running_state a then up else halted)
  after_call halted (start_service a) = some (next a started_up)
  after_call started_up (sleep ms) = if ms == 600 then some up else none
  after_call stage c = none

  unfoldable pub after_calls : List Call → Stage → Option Stage
  after_calls [] s = some s
  after_calls (c ∷ cs) s = do s' ← after_call s c; after_calls cs s'

-- The helper that was found, if any.
abbrev pub source_in : Result ServiceError String → String
source_in (ok source) = source
source_in (err e) = ""

unfoldable pub source_of : Host → String
unfolding helper_path
source_of h = source_in (helper_path h).1

-- Whether it is the one in its place.
abbrev pub stands : Host → Result ServiceError String → Bool
stands h (ok source) = h.same_path source (installed_helper_path h)
stands h (err e) = false

unfoldable pub in_place : Host → Bool
unfolding helper_path
in_place h = stands h (helper_path h).1

-- Nothing was done, or a step failed and nothing was done after it.
abbrev pub is_over : Option Stage → Bool
is_over (some begun) = true
is_over (some over) = true
is_over _ = false

-- A success ends with the helper running, and a failure at the step that failed.
abbrev pub Ends : Result ServiceError (Unit {0}) → Option Stage → Type 0
Ends (ok u) o = o ≡ some up
Ends (err e) o = is_over o ≡ true
