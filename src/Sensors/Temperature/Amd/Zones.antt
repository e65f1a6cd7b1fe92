-- ===== src/Sensors/Temperature/Amd/Zones.antt =====
-- The zones of an AMD part.
use loadbear.Prelude.{
  ℕ, zero, suc, ◌+◌, ◌*◌, ◌%◌, ◌^◌, ◌≤◌, inl, inr, Option, none, some, List, [], ◌∷◌, AllSome,
  length, Bool-cases, arith,
}
use loadbear.Float.{Float}
use loadbear.Sensors.Temperature.Registers.{
  Answer, ok, err, Execute, TemperatureZone, first_word, is_plausible_celsius,
}
use loadbear.Sensors.Temperature.Credible.{IsPlausible, AllPlausible, IsCredible, if_IsPlausible}
use loadbear.Sensors.Temperature.Amd.{
  decode_die_temp, plausible, package_of, ccd_zone, ccd_answer, ccd_zones, with_die,
  read_amd_temperature, renoir_ccd_count, smn_temp_base, renoir_ccd_offset,
}

module _ (F : Type 0) ⦃f : Float F⦄ where
  -- Plausible zones, at most so many.
  abbrev IsShort : ℕ → List (TemperatureZone F) → Type 0
  IsShort n zones = AllPlausible zones × (length zones ≤ n)

  ccd_zone-IsShort :
      (ccd n : ℕ) (o : Option F) (zones : List (TemperatureZone F))
      → IsShort n zones
      → IsShort (suc n) (ccd_zone ccd o zones)
  unfolding ccd_zone
  ccd_zone-IsShort ccd n none zones s = (s.0, omega (arith, s.1))
  ccd_zone-IsShort ccd n (some c) zones s = elim (Bool-cases (is_plausible_celsius c)) [
    | inl e ↦ rw e ((e, s.0), omega (arith, s.1))
    | inr e ↦ rw e (s.0, omega (arith, s.1))
  ]

  ccd_answer-IsShort :
      (ccd n : ℕ) (a : Answer) (rest : List (TemperatureZone F))
      → IsShort n rest
      → IsShort (suc n) (ccd_answer ccd a rest)
  unfolding ccd_answer
  ccd_answer-IsShort ccd n (err e) rest s = (tt, omega arith)
  ccd_answer-IsShort ccd n (ok []) rest s = (tt, omega arith)
  ccd_answer-IsShort ccd n (ok (raw ∷ ws)) rest s = ccd_zone-IsShort ccd n _ rest s

  ccd_zones-IsShort : (execute : Execute) (ccd n : ℕ) → IsShort n (ccd_zones execute ccd n)
  unfolding ccd_zones
  ccd_zones-IsShort execute ccd zero = (tt, omega arith)
  ccd_zones-IsShort execute ccd (suc n) =
      ccd_answer-IsShort ccd n
        (execute "ioctl_read_smn" ((smn_temp_base + renoir_ccd_offset + ccd * 4) ∷ []) 1) _
        (ccd_zones-IsShort execute (suc ccd) n)

  package_of-IsPlausible : (o : Option ℕ) → AllSome {A = F} IsPlausible (package_of o)
  unfolding package_of plausible
  package_of-IsPlausible none = tt
  package_of-IsPlausible (some raw) = if_IsPlausible (decode_die_temp {F = F} (raw % 2 ^ 32))

  pub read_amd_temperature-IsCredible :
      (execute : Execute)
      → IsCredible {F = F} (read_amd_temperature execute)
        × (length {A = TemperatureZone F} (read_amd_temperature execute).zones ≤ renoir_ccd_count)
  unfolding read_amd_temperature with_die
  read_amd_temperature-IsCredible execute = of_answer _
    where
      of_answer :
          (a : Answer)
          → IsCredible {F = F} (with_die execute a)
            × (length {A = TemperatureZone F} (with_die execute a).zones ≤ renoir_ccd_count)
      of_answer (err e) = ((tt, tt), omega arith)
      of_answer (ok die) =
          let zones = ccd_zones-IsShort execute 0 renoir_ccd_count in
          ((package_of-IsPlausible (first_word die), zones.0), zones.1)
