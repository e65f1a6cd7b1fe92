-- ===== src/Sensors/Temperature/Intel/Zones.antt =====
-- The zones of an Intel part.
use loadbear.Prelude.{
  ℕ, zero, suc, ◌≤◌, ◌≡◌, refl, inl, inr, true, ◌/◌, ◌%◌, ◌^◌, Option, none, some, [], ◌∷◌, AllSome,
  AllSome-bind, length, Bool-cases, Option-cases, if◌then◌else◌, ◌==◌, arith, ltb, is_some,
}
use loadbear.Float.{Float}
use loadbear.Sensors.Temperature.Registers.{Execute}
use loadbear.Sensors.Temperature.Credible.{IsPlausible, AllPlausible, IsCredible, if_IsPlausible}
use loadbear.Sensors.Temperature.Intel.{
  Affinity, on_processor, max_affinity_index, read_msr, decode_digital_readout, readout_on,
  core_zone, core_zones, with_tjmax, read_tjmax, read_intel_temperature, msr_package_therm_status,
}

module _ (F : Type 0) ⦃f : Float F⦄ where
  decode-IsPlausible :
      (raw : ℕ) (tjmax : F) → AllSome IsPlausible (decode_digital_readout raw tjmax)
  unfolding decode_digital_readout
  decode-IsPlausible raw tjmax = elim (Bool-cases (raw / 2 ^ 31 % 2 == 0)) [
    | inl e ↦ rw e tt
    | inr e ↦ rw e (if_IsPlausible {F = F} _)
  ]

  readout_on-IsPlausible :
      (affinity : Affinity) (execute_on : ℕ → Execute) (tjmax : F) (i : ℕ)
      → AllSome IsPlausible (readout_on affinity execute_on tjmax i)
  unfolding readout_on
  readout_on-IsPlausible affinity execute_on tjmax i =
      AllSome-bind IsPlausible _ _
        (λ here. AllSome-bind IsPlausible here _ (λ raw. decode-IsPlausible raw tjmax))

  core_zones-AllPlausible :
      (affinity : Affinity) (execute_on : ℕ → Execute) (tjmax : F) (i n : ℕ)
      → AllPlausible (core_zones affinity execute_on tjmax i n)
        × (length (core_zones affinity execute_on tjmax i n) ≤ n)
  unfolding core_zones core_zone
  core_zones-AllPlausible affinity execute_on tjmax i zero = (tt, omega arith)
  core_zones-AllPlausible affinity execute_on tjmax i (suc n) =
      one (readout_on affinity execute_on tjmax i)
        (readout_on-IsPlausible affinity execute_on tjmax i)
        (core_zones-AllPlausible affinity execute_on tjmax (suc i) n)
    where
      one :
          (o : Option F)
          → AllSome IsPlausible o
          → AllPlausible (core_zones affinity execute_on tjmax (suc i) n)
            × (length (core_zones affinity execute_on tjmax (suc i) n) ≤ n)
          → AllPlausible (core_zone i o (core_zones affinity execute_on tjmax (suc i) n))
            × (length (core_zone i o (core_zones affinity execute_on tjmax (suc i) n)) ≤ suc n)
      one none p rest = (rest.0, omega (arith, rest.1))
      one (some c) p rest = ((p, rest.0), omega (arith, rest.1))

  pub read_intel_temperature-IsCredible :
      (affinity : Affinity) (execute_on : ℕ → Execute) (execute : Execute) (logical_processors : ℕ)
      → IsCredible {F = F} (read_intel_temperature affinity execute_on execute logical_processors)
  unfolding read_intel_temperature with_tjmax
  read_intel_temperature-IsCredible affinity execute_on execute logical_processors =
      elim (Option-cases (read_tjmax {F = F} execute)) [
        | inl e ↦ rw e (tt, tt)
        | inr (tjmax, e) ↦ rw e (
          AllSome-bind IsPlausible (read_msr execute msr_package_therm_status) _
              (λ raw. decode-IsPlausible raw tjmax),
          (core_zones-AllPlausible affinity execute_on tjmax 0 logical_processors).0,
        )
      ]

-- A value is read for a processor only on that processor, which is one of the first 64; and every mask
-- that replaced another is followed by the one that it replaced.
pub on_processor-restores :
    {A : Type 0} (affinity : Affinity) (index : ℕ) (result : A)
    → (is_some (on_processor affinity index result).0 ≡ true
        → (affinity.landed_on (2 ^ index) ≡ index) × (index ≤ max_affinity_index))
      × ((on_processor affinity index result).1 ≡ (
          if ltb max_affinity_index index
          then []
          else 2 ^ index
            ∷ (if affinity.previous (2 ^ index) == 0
                then []
                else affinity.previous (2 ^ index) ∷ [])))
unfolding on_processor
on_processor-restores affinity index result = elim (Bool-cases (ltb max_affinity_index index)) [
  | inl e ↦ rw e (λ h. absurd (cc (h)), refl)
  | inr e ↦ elim (Bool-cases (affinity.previous (2 ^ index) == 0)) [
    | inl p ↦ rw (e, p) (λ h. absurd (cc (h)), refl)
    | inr p ↦ elim (Bool-cases (affinity.landed_on (2 ^ index) == index)) [
      | inl l ↦ rw (e, p, l) (λ h. (ground arith, ground arith), refl)
      | inr l ↦ rw (e, p, l) (λ h. absurd (cc (h)), refl)
    ]
  ]
]
