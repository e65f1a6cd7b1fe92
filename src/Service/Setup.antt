-- ===== src/Service/Setup.antt =====
-- crates/loadbear-service/src/main.rs: `setup` and `teardown`, by their exit codes and the calls they make.
use loadbear.Prelude.{ℕ, ◌⊎◌, inl, inr, List, ◌++◌, map}
use loadbear.Prelude.Calls.{Result, ok, err}
use loadbear.Sensors.Installer
use loadbear.Sensors.Installer.{
  InstallError, download_failed, staging_failed, not_an_installer, signature_rejected,
  launch_failed, declined, already_installed, installer_failed, Machine, install,
}
use loadbear.Sensors.ServiceControl
use loadbear.Sensors.ServiceControl.{ServiceError, Host, install_and_start, stop_and_remove}

-- A call of the installation of the driver, or of the helper.
abbrev pub SetupCall : Type 0
SetupCall = Installer.Call ⊎ ServiceControl.Call

abbrev code_of : Result ServiceError (Unit {0}) → ℕ
code_of (ok u) = 0
code_of (err e) = 4

-- The second half, with the calls so far.
abbrev served : Host → List SetupCall → List SetupCall × ℕ
served h before = (before ++ map inr (install_and_start h).0, code_of (install_and_start h).1)

after_install : Host → List SetupCall → Result InstallError (Unit {0}) → List SetupCall × ℕ
after_install h before (ok u) = served h before
after_install h before (err already_installed) = served h before
after_install h before (err installer_failed) = served h before
after_install h before (err declined) = (before, 2)
after_install h before (err download_failed) = (before, 3)
after_install h before (err staging_failed) = (before, 3)
after_install h before (err not_an_installer) = (before, 3)
after_install h before (err signature_rejected) = (before, 3)
after_install h before (err launch_failed) = (before, 3)

unfoldable pub setup : Machine → Host → List SetupCall × ℕ
unfolding after_install
setup m h = after_install h (map inl (install m).0) (install m).1

-- The result of the removal is ignored.
pub teardown : Host → List ServiceControl.Call × ℕ
teardown h = ((stop_and_remove h).0, 0)
