-- ===== src/Sensors/Topology/Examples.antt =====
-- Two cores with two threads each, and one with one.
use loadbear.Prelude.{
  ℕ, ◌%◌, ◌^◌, ◌≡◌, refl, true, ◌||◌, none, some, List, [], ◌∷◌, arith, ltb, ◌==◌, if◌then◌else◌,
  length,
}
use loadbear.Sensors.Topology.{CoreRecord, Processors, count_ones, detect}
use loadbear.Sensors.Topology.Walk.{all_threads, detect-LieFrom}

abbrev wide : ℕ → CoreRecord
wide mask = record { size = 48; masks = mask ∷ [] }

abbrev cores : List CoreRecord
cores = wide 3 ∷ wide 12 ∷ wide 16 ∷ []

abbrev machine : Processors
machine = record {
  required = 144;
  filled = true;
  bytes = 144;
  record_at =
      λ offset. if ltb offset 48 then wide 3 else if ltb offset 96 then wide 12 else wide 16;
}

detect-machine : detect machine ≡ some (record { physical_cores = 3; logical_processors = 5 })
unfolding detect count_ones
detect-machine = refl

detect-LieFrom_example : detect machine ≡ (
    if length cores == 0 || all_threads cores % 2 ^ 32 == 0
    then none
    else some
        (record { physical_cores = length cores; logical_processors = all_threads cores % 2 ^ 32 }))
detect-LieFrom_example = detect-LieFrom machine cores (omega arith) refl (omega arith) (
  refl,
  omega arith,
  omega arith,
  (refl, omega arith, omega arith, (refl, omega arith, omega arith, omega arith)),
)
