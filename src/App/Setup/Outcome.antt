-- ===== src/App/Setup/Outcome.antt =====
-- What the interface says of the elevated setup.
use loadbear.Prelude.{◌≡◌, ◌↔◌, Bool, true, false, arith}
use loadbear.Prelude.Calls.{Result, ok, err, is_ok}
use loadbear.Sensors.Installer.{
  InstallError, already_installed, installer_failed, exited, Machine, install, run_elevated_with,
}
use loadbear.Sensors.ServiceControl.{Host, helper_path, install_and_start}
use loadbear.Service.Setup.{setup}
use loadbear.App.Modes.{setup_result}
use loadbear.App.Setup.{enable_temperature}

-- An installation of the driver after which the setup goes on.
abbrev pub goes_on : Result InstallError (Unit {0}) → Bool
goes_on (ok u) = true
goes_on (err already_installed) = true
goes_on (err installer_failed) = true
goes_on (err _) = false

setup_iff :
    (m : Machine) (w : Host)
    → ((setup m w).1 ≡ 0)
      ↔ ((goes_on (install m).1 ≡ true) × (is_ok (install_and_start w).1 ≡ true))
unfolding setup
setup_iff m w = ((λ h. ground arith), (λ h. ground arith))

-- The interface reports success, and probes again, exactly where it finds the helper, the setup of the driver
-- ends well or with the failure that an installed driver gives, and the helper is installed and started.
pub enable_temperature_iff :
    (h w : Host) (m : Machine)
    → let e = enable_temperature h (exited (setup m w).1) in
      ((is_ok e.answer ≡ true) ↔ (
        (is_ok (helper_path h).1 ≡ true)
        × (goes_on (install m).1 ≡ true)
        × (is_ok (install_and_start w).1 ≡ true)))
      × (e.reprobe ≡ is_ok e.answer)
unfolding enable_temperature run_elevated_with setup_result
enable_temperature_iff h w m =
    let zero_code = setup_iff m w in
    (
      (
        (λ e.
            let code : (setup m w).1 ≡ 0 = ground arith in
            (ground arith, (zero_code.0 code).0, (zero_code.0 code).1)),
        (λ e. let code = zero_code.1 (e.1, e.2) in ground arith),
      ),
      ground arith,
    )
