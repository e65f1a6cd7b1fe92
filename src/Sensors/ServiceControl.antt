-- ===== src/Sensors/ServiceControl.antt =====
-- crates/loadbear-sensors-windows/src/service_control.rs: registering, starting and removing the helper. What
-- the service manager and the file system answer, and the operations on paths, are parameters.
pub mod Removal
pub mod Stages
pub mod Order
pub mod Stopping
mod Examples
use loadbear.Prelude.{
  ℕ, zero, suc, Bool, true, false, not, String, Option, none, some, List, [], ◌∷◌, ◌++◌, unwrap_or,
  if◌then◌else◌,
}
use loadbear.Prelude.Calls.{Result, ok, err, Calls, ◌>>=◌, ◌>>◌, pure, call, guard}

pub data ServiceError : Type 0 where
  executable_missing access_denied register_failed start_failed : ServiceError

abbrev pub service_exe : String
service_exe = "loadbear-service.exe"

-- The states that the program tells apart.
pub data ServiceState : Type 0 where
  running stopped other_state : ServiceState

abbrev pub is_stopped : Option ServiceState → Bool
is_stopped (some stopped) = true
is_stopped _ = false

abbrev pub is_running_state : Option ServiceState → Bool
is_running_state (some running) = true
is_running_state _ = false

-- A call with its arguments, and with its answer where the program looks at it.
pub data Call : Type 0 where
  connect : Bool → Call
  open_service : Bool → Call
  query_status : Option ServiceState → Call
  stop : Call
  delete : Call
  sleep : ℕ → Call
  create_dir_all : String → Call
  copy : String → String → Bool → Call
  create_service : String → Bool → Call
  start_service : Bool → Call
  remove_file : String → Call
  remove_dir : String → Call

abbrev pub Controlling : Type 0 → Type 0
Controlling = Calls Call ServiceError

-- What the machine answers: the paths, the manager, and the state at each query, in order.
pub record Host : Type 0 where
  pub program_files : Option String
  pub current_exe : Option String
  pub parent : String → Option String
  pub join : String → String → String
  pub exists : String → Bool
  pub same_path : String → String → Bool
  pub connects : Bool
  pub has_service : Bool
  pub states : ℕ → Option ServiceState
  pub copies : Bool
  pub creates : Bool
  pub state_created : Option ServiceState
  pub starts : Bool

pub installed_helper_path : Host → String
installed_helper_path h =
    h.join (h.join (unwrap_or h.program_files "C:\\Program Files") "LoadBear") service_exe

-- A value that is there, or this error.
abbrev or_missing : Option String → Controlling String
or_missing none = ([], err executable_missing)
or_missing (some path) = pure path

pub helper_path : Host → Controlling String
helper_path h = do
  exe ← or_missing h.current_exe
  dir ← or_missing (h.parent exe)
  guard (h.exists (h.join dir service_exe)) executable_missing
  pure (h.join dir service_exe)

-- `manager`
abbrev manager : Host → Controlling (Unit {0})
manager h = do call (connect h.connects); guard h.connects access_denied

pub is_running : Host → Bool
is_running h =
    if h.connects then (if h.has_service then is_running_state (h.states 0) else false) else false

abbrev is_waiting : Option ServiceState → Bool
is_waiting none = false
is_waiting (some s) = not (is_stopped (some s))

-- The loop that waits for the stop, with so many rounds left, from this query on. A query that fails ends it.
poll : ℕ → ℕ → (ℕ → Option ServiceState) → List Call
poll zero i states = []
poll (suc n) i states =
    let rest = poll n (suc i) states in
    sleep 150 ∷ query_status (states i) ∷ (if is_waiting (states i) then rest else [])

-- The stop, where the service has a state other than stopped.
stopping : Option ServiceState → (ℕ → Option ServiceState) → List Call
unfolding poll
stopping none states = []
stopping (some stopped) states = []
stopping (some running) states = stop ∷ poll 20 1 states
stopping (some other_state) states = stop ∷ poll 20 1 states

pub stop_and_deregister : Host → List Call
unfolding stopping
stop_and_deregister h =
    if h.has_service
    then open_service true ∷ query_status (h.states 0) ∷ stopping (h.states 0) h.states
      ++ delete ∷ sleep 400 ∷ []
    else open_service false ∷ []

-- Calls whose answers are ignored.
abbrev calls : List Call → Controlling (Unit {0})
calls cs = (cs, ok tt)

abbrev on_parent : Host → (String → Call) → String → List Call
on_parent h c path = elim (h.parent path) [ none ↦ [] | some dir ↦ c dir ∷ [] ]

pub stop_and_remove : Host → Controlling (Unit {0})
unfolding stop_and_deregister
stop_and_remove h = do
  manager h
  calls (stop_and_deregister h)
  call (remove_file (installed_helper_path h))
  calls (on_parent h remove_dir (installed_helper_path h))

-- The copy of the helper, unless it stands there already.
copied : Host → String → String → Controlling (Unit {0})
copied h source exe = if h.same_path source exe then pure tt else (do
  calls (on_parent h create_dir_all exe)
  call (copy source exe h.copies)
  guard h.copies executable_missing)

-- The start, where the service does not run by then.
started : Host → Controlling (Unit {0})
started h =
    if is_running_state h.state_created
    then pure tt
    else (do call (start_service h.starts); guard h.starts start_failed; call (sleep 600))

registered : Host → String → Controlling (Unit {0})
unfolding started
registered h exe = do
  call (create_service exe h.creates)
  guard h.creates register_failed
  call (query_status h.state_created)
  started h

-- What follows, once the helper is found.
installing : Host → String → String → Controlling (Unit {0})
unfolding stop_and_deregister copied registered
installing h exe source = do
  manager h
  calls (stop_and_deregister h)
  copied h source exe
  registered h exe

pub install_and_start : Host → Controlling (Unit {0})
unfolding helper_path installed_helper_path installing
install_and_start h = do source ← helper_path h; installing h (installed_helper_path h) source
