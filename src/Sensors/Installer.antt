-- ===== src/Sensors/Installer.antt =====
-- crates/loadbear-sensors-windows/src/installer.rs: fetching, verifying and running the setup program of the
-- driver. What the network, the file system, the check of signatures and the shell answer is a parameter.
pub mod Handles
pub mod Download
pub mod Fetch
pub mod Trust
mod Examples
use loadbear.Prelude.{
  ℕ, zero, suc, ◌*◌, Bool, true, false, not, ◌||◌, ◌&&◌, String, Option, none, some, List, [], ◌∷◌,
  ◌++◌, length, ltb, ◌==◌, if◌then◌else◌,
}
use loadbear.Prelude.Calls.{Result, ok, err, Calls, ◌>>=◌, ◌>>◌, pure, call, guard}

pub data InstallError : Type 0 where
  download_failed staging_failed not_an_installer signature_rejected : InstallError
  launch_failed declined already_installed installer_failed : InstallError

abbrev pub max_installer_bytes : ℕ
max_installer_bytes = 32 * 1024 * 1024

abbrev pub min_installer_bytes : ℕ
min_installer_bytes = 1024 * 1024

abbrev pub setup_args : String
setup_args = "-install -silent"

-- `session`, `connect` and `request`.
pub data Handle : Type 0 where
  session connection request : Handle

-- What the shell answers: no process, a process without a handle, or one that ends with this code.
pub data Launch : Type 0 where
  refused no_handle : Launch
  exited : ℕ → Launch

-- A call of the system with its arguments, and with its answer where the program looks at it: whether a
-- handle was opened, what a read gave, whether a file was written, the status of a signature.
pub data Call : Type 0 where
  open_handle : Handle → Bool → Call
  close_handle : Handle → Call
  set_timeouts : Handle → Call
  send : Handle → Bool → Call
  receive : Handle → Bool → Call
  query_status : Handle → Option ℕ → Call
  read : Handle → Option (List ℕ) → Call
  write : String → List ℕ → Bool → Call
  verify : String → ℕ → Call
  close_state : String → Call
  launch : String → String → Launch → Call
  wait : Call
  close_process : Call
  remove : String → Call

-- What the network answers. A read that fails, or that gives no bytes, is the last one.
pub record Network : Type 0 where
  pub opens : Handle → Bool
  pub sends : Bool
  pub receives : Bool
  pub status : Option ℕ
  pub reads : List (Option (List ℕ))

abbrev pub Installing : Type 0 → Type 0
Installing = Calls Call InstallError

-- A handle that closes itself at the end of its scope, where it is not null.
abbrev pub with_handle : {A : Type 0} → Network → Handle → Installing A → Installing A
with_handle n h scope =
    if n.opens h
    then (open_handle h true ∷ scope.0 ++ close_handle h ∷ [], scope.1)
    else (open_handle h false ∷ [], err download_failed)

-- The loop over the reads, from the bytes so far.
pub download : List (Option (List ℕ)) → List ℕ → Installing (List ℕ)
download [] body = do call (read request (some [])); pure body
download (none ∷ reads) body = do call (read request none); guard false download_failed; pure body
download (some [] ∷ reads) body = do call (read request (some [])); pure body
download (some (b ∷ bs) ∷ reads) body =
    let rest = download reads (body ++ b ∷ bs) in
    do
      call (read request (some (b ∷ bs)))
      guard (not (ltb max_installer_bytes (length (body ++ b ∷ bs)))) not_an_installer
      rest

-- `starts_with(b"MZ")`
abbrev pub starts_with_mz : List ℕ → Bool
starts_with_mz (m ∷ z ∷ body) = m == b'M' && z == b'Z'
starts_with_mz body = false

abbrev is_200 : Option ℕ → Bool
is_200 none = false
is_200 (some status) = status == 200

-- The request, up to an answer of 200.
requested : Network → Installing (Unit {0})
requested n = do
  call (send request n.sends)
  guard n.sends download_failed
  call (receive request n.receives)
  guard n.receives download_failed
  call (query_status request n.status)
  guard (is_200 n.status) download_failed

-- The shape of what was downloaded.
checked : List ℕ → Installing (List ℕ)
checked body = do
  guard (not (ltb (length body) min_installer_bytes || not (starts_with_mz body))) not_an_installer
  pure body

-- What happens while the three handles are open.
exchange : Network → Installing (List ℕ)
unfolding requested download checked
exchange n = do requested n; body ← download n.reads []; checked body

pub fetch : Network → Installing (List ℕ)
unfolding exchange
fetch n =
    with_handle n session
      do call (set_timeouts session); with_handle n connection (with_handle n request (exchange n))

-- The machine, for the rest of the sequence.
pub record Machine : Type 0 where
  pub network : Network
  pub temp_path : String
  pub writes : Bool
  -- what `WinVerifyTrust` gives for the file
  pub trust : ℕ
  pub launches : Launch

-- The write of the file, and its path.
staged : Machine → List ℕ → Installing String
staged m body = do
  call (write m.temp_path body m.writes)
  guard m.writes staging_failed
  pure m.temp_path

pub stage : Machine → Installing String
unfolding staged
stage m = do body ← fetch m.network; staged m body

pub verify_signature : ℕ → String → Installing (Unit {0})
verify_signature trust path = do
  call (verify path trust)
  call (close_state path)
  guard (trust == 0) signature_rejected

-- The part of `run_elevated` and of `run_elevated_with` that they share: the exit code.
launched : String → String → Launch → Installing ℕ
launched path arguments refused = ((launch path arguments refused) ∷ [], err declined)
launched path arguments no_handle = ((launch path arguments no_handle) ∷ [], err launch_failed)
launched path arguments (exited code) =
    (launch path arguments (exited code) ∷ wait ∷ close_process ∷ [], ok code)

unfoldable pub run_elevated_with : Launch → String → String → Installing ℕ
unfolding launched
run_elevated_with answer path arguments = launched path arguments answer

pub run_elevated : Launch → String → Installing (Unit {0})
unfolding launched
run_elevated answer path = do
  code ← launched path setup_args answer
  guard (code == 0) installer_failed

-- What follows the staging.
checked_and_run : Machine → String → Installing (Unit {0})
unfolding verify_signature run_elevated
checked_and_run m path = do
  verify_signature m.trust path
  run_elevated m.launches path
  call (remove path)

pub install : Machine → Installing (Unit {0})
unfolding stage checked_and_run
install m = do path ← stage m; checked_and_run m path
