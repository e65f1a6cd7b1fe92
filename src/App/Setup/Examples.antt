-- ===== src/App/Setup/Examples.antt =====
-- A consent that is declined.
use loadbear.Prelude.{◌≡◌, ◌↔◌, true, false, none, some, [], ◌∷◌, concat}
use loadbear.Sensors.Installer.{refused, exited, Machine, install}
use loadbear.Sensors.ServiceControl.{running, Host, helper_path, install_and_start}
use loadbear.Service.Setup.{setup}
use loadbear.App.Setup.{enable_temperature}
use loadbear.Prelude.Calls.{is_ok}
use loadbear.App.Setup.Outcome.{goes_on, enable_temperature_iff}

abbrev host : Host
host = record {
  program_files = none;
  current_exe = some "D\\loadbear.exe";
  parent = λ path. some "D";
  join = λ dir file. concat (dir ∷ "\\" ∷ file ∷ []);
  exists = λ path. true;
  same_path = λ a b. true;
  connects = true;
  has_service = false;
  states = λ i. none;
  copies = true;
  creates = true;
  state_created = some running;
  starts = true;
}

abbrev machine : Machine
machine = record {
  network = record {
    opens = λ h. true;
    sends = true;
    receives = true;
    status = some 200;
    reads = some (b'M' ∷ b'Z' ∷ []) ∷ [];
  };
  temp_path = "T";
  writes = true;
  trust = 0;
  launches = refused;
}

enable_temperature_iff_example :
    ((is_ok (enable_temperature host (exited (setup machine host).1)).answer ≡ true) ↔ (
      (is_ok (helper_path host).1 ≡ true)
      × (goes_on (install machine).1 ≡ true)
      × (is_ok (install_and_start host).1 ≡ true)))
    × ((enable_temperature host (exited (setup machine host).1)).reprobe
        ≡ is_ok (enable_temperature host (exited (setup machine host).1)).answer)
enable_temperature_iff_example = enable_temperature_iff host host machine
