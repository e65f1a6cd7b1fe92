-- ===== src/Sensors/Power/Examples.antt =====
-- Counters read twice.
use loadbear.Prelude.{◌+◌, ◌≡◌, refl, none, some, if◌then◌else◌, arith}
use loadbear.Float.Fixed.{Fixed, num, fixed_float}
use loadbear.Sensors.Power.{PackagePower, watts_of, is_plausible, rate, read}
use loadbear.Sensors.Power.Ticks.{read-read}

-- One joule per count, and a first reading at one second.
abbrev fresh : PackagePower Fixed
fresh = record { joules_per_count = num 1000 0; previous = none }

abbrev once : PackagePower Fixed
once = record fresh { previous = some (90, 1000) }

abbrev as_is : Fixed → Fixed
as_is x = x

-- Ten counts in one second are ten watts.
read-once : (read as_is once (some 100) 2000).1 ≡ some (num 10000 0)
unfolding read rate watts_of
read-once = refl

read-first : (read as_is fresh (some 90) 1000).1 ≡ none
unfolding read rate
read-first = refl

read-read_example :
    (read as_is (read as_is fresh (some 90) 1000).0 (some (90 + 10)) (1000 + 500)).1 ≡ (
      let watts = watts_of as_is fresh.joules_per_count 10 500 in
      if is_plausible watts then some watts else none)
read-read_example = read-read as_is fresh 90 10 1000 500 (omega arith) (omega arith)
