-- ===== src/Service/Run.antt =====
-- crates/loadbear-service/src/main.rs: the modes of the program, `run` with the handler of control events,
-- and `probe_power`. When the events come, and what the service manager answers, are parameters.
pub mod Stops
mod Examples
use text.Mathlib.Text.{◌==◌ as str_eq}
use loadbear.Prelude.{
  ℕ, zero, suc, ◌+◌, Bool, true, false, not, ◌&&◌, ◌||◌, String, Option, none, some, List, [], ◌∷◌,
  ◌++◌, any, map, ◌==◌, if◌then◌else◌, is_some,
}
use loadbear.Prelude.Calls.{Result, ok, err, Calls, ◌>>=◌, ◌>>◌, pure, call, guard}
use loadbear.Float.{Float}
use loadbear.Sensors.Shared.{SharedTemperature}
use loadbear.Sensors.Temperature.Registers.{Execute}
use loadbear.Sensors.Temperature.Intel.{Affinity}
use loadbear.Sensors.Temperature.Source.{WindowsTemperature, package_watts, tjmax_c}
use loadbear.Service.{Pass, source_at, sample_loop}

-- What `main` does with its arguments.
pub data Mode : Type 0 where
  setup_mode teardown_mode probe_mode dump_mode service_mode : Mode

abbrev pub has_arg : String → List String → Bool
has_arg name = any (λ a. str_eq a name)

-- `diagnostics` says whether the feature is built in.
pub mode_of : Bool → List String → Mode
mode_of diagnostics args =
    if has_arg "--setup" args
    then setup_mode
    else if has_arg "--teardown" args
    then teardown_mode
    else if has_arg "--probe-power" args
    then probe_mode
    else if diagnostics && has_arg "--dump-pmtable" args
    then dump_mode
    else service_mode

-- The events that the handler tells apart.
pub data Control : Type 0 where
  stop shutdown interrogate other_control : Control

pub data HandlerResult : Type 0 where
  no_error not_implemented : HandlerResult

-- The handler: the flag after the event, and the answer.
abbrev pub on_control : Bool → Control → Bool × HandlerResult
on_control flag stop = (true, no_error)
on_control flag shutdown = (true, no_error)
on_control flag interrogate = (flag, no_error)
on_control flag other_control = (flag, not_implemented)

-- The flag after these events.
abbrev pub controlled : Bool → List Control → Bool
controlled flag [] = flag
controlled flag (c ∷ cs) = controlled (on_control flag c).0 cs

-- The events that come before a pass, and before each look at the flag in its sleep.
pub record Arrivals : Type 0 where
  pub before : List Control
  pub sleeping : List (List Control)

-- What each look at the flag sees, and the flag after the last.
abbrev looks : Bool → List (List Control) → List Bool × Bool
looks flag [] = ([], flag)
looks flag (cs ∷ css) =
    let rest = looks (controlled flag cs) css in (controlled flag cs ∷ rest.0, rest.1)

-- The passes as the loop meets them.
pub passes_under : Bool → List (Arrivals × Pass) → List Pass
passes_under flag [] = []
passes_under flag ((a, p) ∷ rest) =
    let here = controlled flag a.before in
    let seen = looks here a.sleeping in
    record p { stop = here; slices = seen.0 } ∷ passes_under seen.1 rest

pub data ServiceStatus : Type 0 where
  running stopped : ServiceStatus

-- A call with its arguments, and with whether it succeeds. `accepts_stop` are the controls of a status.
pub data Call (F : Type 0) : Type 0 where
  register : Bool → Call F
  set_status : ServiceStatus → Bool → Bool → Call F
  create_mapping : Bool → Call F
  publish : SharedTemperature F → Call F

-- How a run is left: with an error of the service manager, or not at all, where no stop came so far.
pub data Unfinished : Type 0 where
  failed going_on : Unfinished

-- The loop ends in one of these passes.
abbrev pub ends_within : List Pass → Bool
ends_within = any (λ p. p.stop || any (λ b. b) p.slices)

-- What the service manager and the system answer.
pub record Manager : Type 0 where
  pub registers : Bool
  pub sets_running : Bool
  pub creates : Bool
  pub sets_stopped : Bool

module _ {D F : Type 0} ⦃d : Float D⦄ ⦃f : Float F⦄ (bytes : String → List ℕ) (nan : F)
    (as_f32 : D → F) (from_bits : ℕ → F) (affinity : Affinity) (execute_on : ℕ → Execute) where
  -- `sample_loop` with the creation of the mapping.
  serve : Bool → List Pass → WindowsTemperature D → List (Call F)
  serve false passes t = create_mapping false ∷ []
  serve true passes t =
      create_mapping true
      ∷ map publish
          (sample_loop bytes nan as_f32 from_bits affinity execute_on (tjmax_c t) passes t)

  -- The handler, and the statuses around the loop, which is followed over these passes.
  pub run :
      Manager → List (Arrivals × Pass) → WindowsTemperature D → Calls (Call F) Unfinished (Unit {0})
  unfolding serve passes_under
  run m events t = do
    call (register m.registers)
    guard m.registers failed
    call (set_status running true m.sets_running)
    guard m.sets_running failed
    (serve m.creates (passes_under false events) t, ok tt)
    guard (not m.creates || ends_within (passes_under false events)) going_on
    call (set_status stopped false m.sets_stopped)
    guard m.sets_stopped failed

module _ {D F : Type 0} ⦃d : Float D⦄ ⦃f : Float F⦄ (as_f32 : D → F) where
  -- How many of so many rounds, from this one on, give a power.
  powers_seen : ℕ → ℕ → (ℕ → Pass) → WindowsTemperature D → ℕ
  powers_seen zero i at t = 0
  powers_seen (suc n) i at t =
      let p = at i in
      let after = package_watts as_f32 (source_at p t) p.unit p.counter p.now in
      let rest = powers_seen n (suc i) at after.0 in if is_some after.1 then suc rest else rest

  -- The exit code. What is printed is left out.
  pub probe_power : (ℕ → Pass) → WindowsTemperature D → ℕ
  unfolding powers_seen
  probe_power at t = if powers_seen 8 0 at t == 0 then 1 else 0
