-- ===== src/Service/Run/Examples.antt =====
-- A helper that is stopped in the sleep of its second pass.
use loadbear.Prelude.{
  ℕ, ◌≡◌, refl, true, false, not, ◌&&◌, ◌||◌, String, none, some, List, [], ◌∷◌, filter_map,
  if◌then◌else◌,
}
use loadbear.Prelude.Calls.{is_ok}
use loadbear.Float.Fixed.{Fixed, nan, num, fixed_float}
use loadbear.Core.Spec.{amd}
use loadbear.Sensors.Temperature.Registers.{ok, Execute}
use loadbear.Sensors.Temperature.Amd.Fields.{die_register}
use loadbear.Sensors.Temperature.Intel.{Affinity}
use loadbear.Sensors.Temperature.Source.{WindowsTemperature, available}
use loadbear.Service.{Pass}
use loadbear.Service.Run.{
  teardown_mode, service_mode, mode_of, stop, interrogate, other_control, Arrivals, Manager, run,
}
use loadbear.Service.Run.Stops.{times_until_end, has_end, publishing, publishing-run}

abbrev driver : Execute
driver function input words = ok (die_register 480 0 0 0 0 0 ∷ [])

abbrev source : WindowsTemperature Fixed
source = record {
  device = some driver;
  power = none;
  per_core = none;
  cores = 8;
  status = available;
  vendor = amd;
}

abbrev pass : ℕ → Pass
pass now = record {
  stop = false;
  slices = [];
  now = now;
  execute = driver;
  execute_table = driver;
  unit = none;
  counter = none;
}

abbrev quiet : Arrivals
quiet = record { before = interrogate ∷ []; sleeping = [] ∷ (other_control ∷ []) ∷ [] }

abbrev last : Arrivals
last = record { before = []; sleeping = [] ∷ (interrogate ∷ stop ∷ []) ∷ [] }

abbrev events : List (Arrivals × Pass)
events = (quiet, pass 1500) ∷ (last, pass 3000) ∷ (quiet, pass 4500) ∷ []

abbrev trusting : Manager
trusting = record { registers = true; sets_running = true; creates = true; sets_stopped = true }

abbrev letters : String → List ℕ
letters text = 67 ∷ []

abbrev whole : ℕ → Fixed
whole bits = num bits 0

abbrev still : Affinity
still = record { previous = λ mask. 255; landed_on = λ mask. 2 }

times_of_events : times_until_end events ≡ 1500 ∷ 3000 ∷ []
times_of_events = refl

publishing-run_example :
    let r = run letters nan (λ x. x) whole still (λ i. driver) trusting events source in
    (filter_map publishing r.0 ≡ (
      if trusting.registers && trusting.sets_running && trusting.creates
      then times_until_end events
      else []))
    × (is_ok r.1
        ≡ trusting.registers
          && trusting.sets_running
          && (not trusting.creates || has_end events)
          && trusting.sets_stopped)
publishing-run_example =
    publishing-run letters nan (λ x. x) whole still (λ i. driver) trusting events source

mode_of-teardown : mode_of false ("--quiet" ∷ "--teardown" ∷ []) ≡ teardown_mode
unfolding mode_of
mode_of-teardown = refl

-- The mode that writes the table is there only where it is built in.
mode_of-dump : mode_of false ("--dump-pmtable" ∷ []) ≡ service_mode
unfolding mode_of
mode_of-dump = refl
