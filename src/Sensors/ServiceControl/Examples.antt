-- ===== src/Sensors/ServiceControl/Examples.antt =====
-- A machine on which an older helper runs.
use loadbear.Prelude.{
  ◌≤◌, ◌≡◌, refl, true, false, some, [], ◌∷◌, ◌==◌, if◌then◌else◌, count_if, concat,
}
use loadbear.Prelude.Calls.{ok}
use loadbear.Sensors.ServiceControl.{
  running, stopped, connect, open_service, query_status, stop, delete, sleep, create_dir_all, copy,
  create_service, start_service, Host, stop_and_deregister, install_and_start,
}
use loadbear.Sensors.ServiceControl.Removal.{unopened, clear, after_removals}
use loadbear.Sensors.ServiceControl.Stopping.{
  slept, is_stop, is_delete, stop_and_deregister-bounded,
}

-- It stops at the third query.
abbrev host : Host
host = record {
  program_files = some "P";
  current_exe = some "D\\loadbear.exe";
  parent = λ path. some "D";
  join = λ dir file. concat (dir ∷ "\\" ∷ file ∷ []);
  exists = λ path. true;
  same_path = λ a b. false;
  connects = true;
  has_service = true;
  states = λ i. if i == 2 then some stopped else some running;
  copies = true;
  creates = true;
  state_created = some stopped;
  starts = true;
}

install_and_start-host : install_and_start host ≡ (
  connect true
      ∷ open_service true
      ∷ query_status (some running)
      ∷ stop
      ∷ sleep 150
      ∷ query_status (some running)
      ∷ sleep 150
      ∷ query_status (some stopped)
      ∷ delete
      ∷ sleep 400
      ∷ create_dir_all "D"
      ∷ copy "D\\loadbear-service.exe" "P\\LoadBear\\loadbear-service.exe" true
      ∷ create_service "P\\LoadBear\\loadbear-service.exe" true
      ∷ query_status (some stopped)
      ∷ start_service true
      ∷ sleep 600
      ∷ [],
  ok tt,
)
unfolding install_and_start
install_and_start-host = refl

stop_and_deregister-bounded_example :
    (after_removals host.has_service host.states (stop_and_deregister host) unopened ≡ some clear)
    × (slept (stop_and_deregister host) ≤ 3400)
    × (count_if is_stop (stop_and_deregister host) ≡ 1)
    × (count_if is_delete (stop_and_deregister host) ≡ 1)
stop_and_deregister-bounded_example = stop_and_deregister-bounded host
