-- ===== src/App/Setup.antt =====
-- crates/loadbear-app/src/main.rs: `enable_temperature`, with what the errors of installer.rs and
-- service_control.rs of crates/loadbear-sensors-windows/src print. The elevated child is a parameter.
pub mod Outcome
mod Examples
use loadbear.Prelude.{ℕ, Bool, true, false, String, List, ◌++◌}
use loadbear.Prelude.Calls.{Result, ok, err}
use loadbear.Sensors.Installer.{
  InstallError, download_failed, staging_failed, not_an_installer, signature_rejected,
  launch_failed, declined, already_installed, installer_failed, Launch, run_elevated_with,
}
use loadbear.Sensors.ServiceControl.{
  ServiceError, executable_missing, access_denied, register_failed, start_failed, Host, helper_path,
}
use loadbear.App.Modes.{setup_result}

install_error_text : InstallError → String
install_error_text download_failed =
    "the driver installer could not be downloaded. Check your connection and try again."
install_error_text staging_failed =
    "the downloaded installer could not be written to a temporary file"
install_error_text not_an_installer = "the downloaded file does not look like an installer"
install_error_text signature_rejected =
    "the download is not signed by a trusted publisher, so it was not run"
install_error_text launch_failed = "the installer could not be started"
install_error_text declined = "installation was declined"
install_error_text already_installed =
    "PawnIO is already installed. Uninstall it first to reinstall."
install_error_text installer_failed = "the installer ran but did not complete successfully"

service_error_text : ServiceError → String
service_error_text executable_missing = "the helper program could not be found next to LoadBear"
service_error_text access_denied =
    "administrator rights are needed to set up temperature monitoring"
service_error_text register_failed = "the helper service could not be registered"
service_error_text start_failed = "the helper service could not be started"

-- What the interface is told, and whether the temperatures are probed again.
pub record Enabled : Type 0 where
  pub reprobe : Bool
  pub answer : Result String String

abbrev failed : String → Enabled
failed text = record { reprobe = false; answer = err text }

abbrev told : Bool × String → Enabled
told (true, text) = record { reprobe = true; answer = ok text }
told (false, text) = failed text

abbrev from_code : Result InstallError ℕ → Enabled
from_code (ok code) = told (setup_result code)
from_code (err e) = failed (install_error_text e)

abbrev from_helper : Launch → Result ServiceError String → Enabled
from_helper child (ok helper) = from_code (run_elevated_with child helper "--setup").1
from_helper child (err e) = failed (service_error_text e)

-- From the machine of the interface and from what the shell answers for the child.
pub enable_temperature : Host → Launch → Enabled
unfolding install_error_text service_error_text
enable_temperature h child = from_helper child (helper_path h).1
