-- ===== src/Sensors/Installer/Trust.antt =====
-- What is run: only a file that was checked.
use text.Mathlib.Text.{◌==◌ as str_eq}
use text.Mathlib.TextPositions.{eq_refl}
use loadbear.Prelude.{
  ℕ, ◌≡◌, refl, inl, inr, Bool, true, false, ◌&&◌, String, Option, none, some, List, [], ◌∷◌, ◌++◌,
  arith, leb, ◌==◌, if◌then◌else◌, is_some, ◌>>=◌, Bool-cases, Option-cases, length, All,
  All-append,
}
use loadbear.Prelude.Calls.{Result, ok, err}
use loadbear.Prelude.Calls
use loadbear.Sensors.Installer.{
  Handle, session, connection, request, Call, open_handle, close_handle, set_timeouts, send,
  receive, query_status, read, write, verify, close_state, launch, wait, close_process, remove,
  Network, Machine, Installing, InstallError, max_installer_bytes, min_installer_bytes, setup_args,
  starts_with_mz, with_handle, download, requested, checked, exchange, fetch, staged, stage,
  checked_and_run, verify_signature, run_elevated, install,
}
use loadbear.Sensors.Installer.Fetch.{fetch_iff}

-- What is known of the file: nothing, that a setup program by its shape was written to this path, or that
-- its signature was found valid since.
data Trust : Type 0 where
  untrusted : Trust
  stored trusted : String → Trust

abbrev is_installer : List ℕ → Bool
is_installer body =
    leb min_installer_bytes (length body)
    && leb (length body) max_installer_bytes
    && starts_with_mz body

abbrev verified : String → ℕ → Trust → Trust
verified path status (stored p) = if str_eq path p && status == 0 then trusted p else untrusted
verified path status untrusted = untrusted
verified path status (trusted p) = untrusted

abbrev run_allowed : String → String → Trust → Option Trust
run_allowed path arguments (trusted p) =
    if str_eq path p && str_eq arguments setup_args then some untrusted else none
run_allowed path arguments untrusted = none
run_allowed path arguments (stored p) = none

-- What is known after a call; a program may be run only where it is trusted.
abbrev after_call : Call → Trust → Option Trust
after_call (write path body written) t =
    some (if written && is_installer body then stored path else untrusted)
after_call (verify path status) t = some (verified path status t)
after_call (launch path arguments answer) t = run_allowed path arguments t
after_call (remove path) t = some untrusted
after_call (open_handle h a) t = some t
after_call (close_handle h) t = some t
after_call (set_timeouts h) t = some t
after_call (send h a) t = some t
after_call (receive h a) t = some t
after_call (query_status h a) t = some t
after_call (read h a) t = some t
after_call (close_state p) t = some t
after_call wait t = some t
after_call close_process t = some t

after_calls : List Call → Trust → Option Trust
after_calls [] t = some t
after_calls (c ∷ calls) t = do t' ← after_call c t; after_calls calls t'

-- Every program that is run is trusted when it is run.
pub AreTrusted : List Call → Type 0
unfolding after_calls
AreTrusted calls = is_some (after_calls calls untrusted) ≡ true

after_calls-append :
    (cs ds : List Call) (t : Trust)
    → after_calls (cs ++ ds) t ≡ (do t' ← after_calls cs t; after_calls ds t')
unfolding after_calls
after_calls-append [] ds t = refl
after_calls-append (c ∷ cs) ds t = elim (Option-cases (after_call c t)) [
  | inl e ↦ rw e refl
  | inr (t', e) ↦ rw e (after_calls-append cs ds t')
]

-- A call that changes nothing of what is known.
abbrev is_quiet : Call → Bool
is_quiet (write path body written) = false
is_quiet (verify path status) = false
is_quiet (launch path arguments answer) = false
is_quiet (remove path) = false
is_quiet (open_handle h a) = true
is_quiet (close_handle h) = true
is_quiet (set_timeouts h) = true
is_quiet (send h a) = true
is_quiet (receive h a) = true
is_quiet (query_status h a) = true
is_quiet (read h a) = true
is_quiet (close_state p) = true
is_quiet wait = true
is_quiet close_process = true

abbrev IsQuiet : Call → Type 0
IsQuiet c = is_quiet c ≡ true

after_call_quiet : (c : Call) (t : Trust) → IsQuiet c → after_call c t ≡ some t
after_call_quiet c t h = ground arith

after_calls_quiet :
    (calls : List Call) (t : Trust) → All IsQuiet calls → after_calls calls t ≡ some t
unfolding after_calls
after_calls_quiet [] t h = refl
after_calls_quiet (c ∷ calls) t h = rw (after_call_quiet c t h.0) (after_calls_quiet calls t h.1)

download-AreQuiet :
    (reads : List (Option (List ℕ))) (body : List ℕ) → All IsQuiet (download reads body).0
unfolding download
download-AreQuiet [] body = (refl, tt)
download-AreQuiet (none ∷ reads) body = (refl, tt)
download-AreQuiet (some [] ∷ reads) body = (refl, tt)
download-AreQuiet (some (b ∷ bs) ∷ reads) body = (
  refl,
  Calls.bind-All IsQuiet (Calls.guard _ _) _ (Calls.guard-All IsQuiet _ _)
      (λ u. download-AreQuiet reads _),
)

requested-AreQuiet : (n : Network) → All IsQuiet (requested n).0
unfolding requested
requested-AreQuiet n = ground arith

checked-AreQuiet : (body : List ℕ) → All IsQuiet (checked body).0
unfolding checked
checked-AreQuiet body = ground arith

with_handle-AreQuiet :
    {A : Type 0} (n : Network) (h : Handle) (scope : Installing A)
    → All IsQuiet scope.0
    → All IsQuiet (with_handle n h scope).0
with_handle-AreQuiet n h scope q = elim (Bool-cases (n.opens h)) [
  | inl e ↦ rw e (refl, All-append IsQuiet scope.0 _ q (refl, tt))
  | inr e ↦ rw e (refl, tt)
]

fetch-AreQuiet : (n : Network) → All IsQuiet (fetch n).0
unfolding fetch exchange
fetch-AreQuiet n =
    let talk : All IsQuiet (exchange n).0 =
      Calls.bind-All IsQuiet (requested n) _ (requested-AreQuiet n) (λ u.
        Calls.bind-All IsQuiet (download n.reads []) checked (download-AreQuiet n.reads [])
          checked-AreQuiet) in
    let inner = with_handle n request (exchange n) in
    let outer = with_handle n connection inner in
    with_handle-AreQuiet n session (Calls.◌>>◌ (Calls.call (set_timeouts session)) outer)
      (refl, with_handle-AreQuiet n connection inner (with_handle-AreQuiet n request _ talk))

-- What is known after a stage with this result.
abbrev AfterStage : String → Result InstallError String → Option Trust → Type 0
AfterStage temp (ok path) o = o ≡ some (stored path)
AfterStage temp (err e) o = is_some o ≡ true

staged-AfterStage :
    (m : Machine) (body : List ℕ)
    → is_installer body ≡ true
    → AfterStage m.temp_path (staged m body).1 (after_calls (staged m body).0 untrusted)
unfolding staged after_calls
staged-AfterStage m body h = ground arith

after_fetch :
    (m : Machine) (f : Installing (List ℕ))
    → All IsQuiet f.0
    → ((body : List ℕ) → f.1 ≡ ok body → is_installer body ≡ true)
    → AfterStage m.temp_path
        (Calls.◌>>=◌ f (staged m)).1
        (after_calls (Calls.◌>>=◌ f (staged m)).0 untrusted)
after_fetch m (calls, ok body) q shape =
    rw (after_calls-append calls (staged m body).0 untrusted, after_calls_quiet calls untrusted q)
      (staged-AfterStage m body (shape body refl))
after_fetch m (calls, err e) q shape = rw (after_calls_quiet calls untrusted q) refl

stage-AfterStage :
    (m : Machine) → AfterStage m.temp_path (stage m).1 (after_calls (stage m).0 untrusted)
unfolding stage
stage-AfterStage m =
    after_fetch m (fetch m.network) (fetch-AreQuiet m.network)
      (λ body e. let shape = (fetch_iff m.network body).0 e in ground arith)

checked_and_run_allowed :
    (m : Machine) (path : String)
    → is_some (after_calls (checked_and_run m path).0 (stored path)) ≡ true
unfolding checked_and_run verify_signature run_elevated after_calls
checked_and_run_allowed m path = ground (arith, eq_refl path)

after_stage :
    (m : Machine) (s : Installing String)
    → AfterStage m.temp_path s.1 (after_calls s.0 untrusted)
    → is_some (after_calls (Calls.◌>>=◌ s (checked_and_run m)).0 untrusted) ≡ true
after_stage m (calls, ok path) h =
    rw (after_calls-append calls (checked_and_run m path).0 untrusted, h)
      (checked_and_run_allowed m path)
after_stage m (calls, err e) h = h

-- Whatever the machine answers, nothing is run but a file to which bytes of the size and shape of a setup
-- program were written, and whose signature was found valid after that; it is run once at most for each
-- such check, and with the arguments for a silent installation only.
pub install-AreTrusted : (m : Machine) → AreTrusted (install m).0
unfolding AreTrusted install
install-AreTrusted m = after_stage m (stage m) (stage-AfterStage m)
