-- ===== src/Sensors/Temperature/Credible.antt =====
-- What a reading of a temperature source can hold.
use loadbear.Prelude.{
  true, ◌≡◌, inl, inr, none, some, List, if◌then◌else◌, All, AllSome, Bool-cases,
}
use loadbear.Float.{Float}
use loadbear.Sensors.Temperature.Registers.{
  TemperatureZone, TemperatureReading, is_plausible_celsius,
}

module _ {F : Type 0} ⦃f : Float F⦄ where
  abbrev pub IsPlausible : F → Type 0
  IsPlausible c = is_plausible_celsius c ≡ true

  abbrev pub AllPlausible : List (TemperatureZone F) → Type 0
  AllPlausible = All (λ z. IsPlausible z.celsius)

  -- Every value of a reading is plausible.
  abbrev pub IsCredible : TemperatureReading F → Type 0
  IsCredible r = AllSome IsPlausible r.package_c × AllPlausible r.zones

  pub if_IsPlausible :
      (c : F) → AllSome IsPlausible (if is_plausible_celsius c then some c else none)
  if_IsPlausible c = elim (Bool-cases (is_plausible_celsius c)) [ inl e ↦ rw e e | inr e ↦ rw e tt ]
