-- ===== src/Sensors/Temperature/Source/Status.antt =====
-- When a source is available, and what the user is told.
use loadbear.Prelude.{
  Bool, true, false, ◌≡◌, refl, inl, inr, Option, is_some, is_none, Option-cases,
}
use loadbear.Core.Spec.{Vendor, amd, intel, other, CpuKey}
use loadbear.Sensors.Temperature.Registers.{not_installed, failed}
use loadbear.Sensors.Temperature.Source.{
  install_driver, no_remedy, TemperatureStatus, available, unavailable, is_available,
  WindowsTemperature, Opened, opened, refused, Machine, loaded, with_device, with_driver, new,
  vendor_of,
}

abbrev pub offers_driver : TemperatureStatus → Bool
offers_driver (unavailable reason (install_driver url)) = true
offers_driver (unavailable reason no_remedy) = false
offers_driver available = false

abbrev pub is_missing : Opened → Bool
is_missing (refused not_installed) = true
is_missing (refused (failed e)) = false
is_missing (opened execute) = false

-- The driver is open, there is a module for the vendor, and it was loaded.
abbrev pub is_ready : Machine → Vendor → Opened → Bool
is_ready m amd (opened execute) = is_none (m.load amd)
is_ready m intel (opened execute) = is_none (m.load intel)
is_ready m other (opened execute) = false
is_ready m v (refused e) = false

module _ (D : Type 0) where
  -- What holds of a source from a machine with this driver.
  abbrev pub IsSourceOf : Machine → Vendor → Opened → WindowsTemperature D → Type 0
  IsSourceOf m v o t =
      (is_available t.status ≡ is_ready m v o)
      × (is_some t.device ≡ is_ready m v o)
      × (offers_driver t.status ≡ is_missing o)
      × (t.vendor ≡ v)

  with_driver-IsSourceOf :
      (m : Machine) (v : Vendor) (o : Opened) → IsSourceOf m v o (with_driver m v o)
  unfolding with_driver with_device loaded
  with_driver-IsSourceOf m amd (opened execute) = elim (Option-cases (m.load amd)) [
    | inl e ↦ rw e (refl, refl, refl, refl)
    | inr (x, e) ↦ rw e (refl, refl, refl, refl)
  ]
  with_driver-IsSourceOf m intel (opened execute) = elim (Option-cases (m.load intel)) [
    | inl e ↦ rw e (refl, refl, refl, refl)
    | inr (x, e) ↦ rw e (refl, refl, refl, refl)
  ]
  with_driver-IsSourceOf m other (opened execute) = (refl, refl, refl, refl)
  with_driver-IsSourceOf m amd (refused not_installed) = (refl, refl, refl, refl)
  with_driver-IsSourceOf m amd (refused (failed e)) = (refl, refl, refl, refl)
  with_driver-IsSourceOf m intel (refused not_installed) = (refl, refl, refl, refl)
  with_driver-IsSourceOf m intel (refused (failed e)) = (refl, refl, refl, refl)
  with_driver-IsSourceOf m other (refused not_installed) = (refl, refl, refl, refl)
  with_driver-IsSourceOf m other (refused (failed e)) = (refl, refl, refl, refl)

  -- A source is available exactly where the driver is open, the vendor is AMD or Intel and its module was
  -- loaded, and it has a device exactly then; the user is pointed to the driver exactly where it is not
  -- installed, and not where it fails in another way or does not suit the processor.
  pub new-IsSourceOf :
      (m : Machine) (key : Option CpuKey) → IsSourceOf m (vendor_of key) m.open_driver (new m key)
  unfolding new
  new-IsSourceOf m key = with_driver-IsSourceOf m (vendor_of key) m.open_driver
