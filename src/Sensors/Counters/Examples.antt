-- ===== src/Sensors/Counters/Examples.antt =====
-- Samples of the counters.
use loadbear.Prelude.{
  ℕ, ◌*◌, ◌/◌, ◌<◌, ◌≡◌, refl, Bool, true, false, none, some, List, [], ◌∷◌, map, length, count_if,
  sort_by,
}
use loadbear.Float.Fixed.{Fixed, num, fixed_float, Fixed-IsTotal}
use loadbear.Sensors.Counters.{
  CounterSample, CounterPath, pages_input, available_mb, err, counter_unavailable, open_counters,
  empty_sample, SampleWindow, median, average, pick, middle, actual_mhz,
}
use loadbear.Sensors.Counters.Query.{value_of, open_counters-outcome}
use loadbear.Sensors.Counters.Middle.{between, IsMiddle, median_majority}

-- A sample with this run queue.
abbrev queued : ℕ → CounterSample Fixed
queued n = record empty_sample { processor_queue_length = num (n * 1000) 0 }

-- Two calm samples and a spike.
abbrev spike : List (CounterSample Fixed)
spike = queued 0 ∷ queued 31 ∷ queued 0 ∷ []

abbrev spiked : SampleWindow Fixed
spiked = record { capacity = 4; samples = spike }

median-spiked : median spiked ≡ some (queued 0)
unfolding median pick middle sort_by
median-spiked = refl

average-spiked :
    average spiked ≡ some (record empty_sample { processor_queue_length = num 10333 0 })
unfolding average
average-spiked = refl

actual_mhz-base : actual_mhz {D = Fixed} (λ x. 0) empty_sample ≡ none
unfolding actual_mhz
actual_mhz-base = refl

median_majority_example :
    (m : CounterSample Fixed) × (median spiked ≡ some m)
    × ((p : CounterPath) (low high : Fixed)
        → length spike / 2 < count_if (between low high) (map (value_of p) spike)
        → IsMiddle low high (value_of p m))
median_majority_example = median_majority Fixed-IsTotal spiked refl

abbrev present : CounterPath → Bool
present pages_input = false
present available_mb = false
present p = true

open_counters-missing : (open_counters true present).1 ≡ err (counter_unavailable pages_input)
open_counters-missing = (open_counters-outcome present true).0
