-- ===== src/Core/Types/Examples.antt =====
-- Stall signals at which the worst resource is read.
use loadbear.Prelude.{◌≡◌, refl, none, some}
use loadbear.Float.Fixed.{Fixed, num, fixed_float}
use loadbear.Core.Types.{Resource, StallSignal, worst}

abbrev memory_bound : StallSignal Fixed
memory_bound = record { cpu = num 100 0; memory = num 900 0; io = some (num 200 0) }

worst-memory : worst memory_bound ≡ (Resource.memory, num 900 0)
unfolding worst
worst-memory = refl

-- A disk that is not known is not named, and a tie goes to the processor.
worst-tie :
    worst (record memory_bound { memory = num 100 0; io = none }) ≡ (Resource.cpu, num 100 0)
unfolding worst
worst-tie = refl
