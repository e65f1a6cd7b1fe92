-- ===== src/Sensors/Baseline/Examples.antt =====
-- Baselines that learn from a few samples.
use loadbear.Prelude.{ℕ, zero, suc, ◌*◌, ◌≡◌, refl, true, List, [], ◌∷◌, All, arith}
use loadbear.Float.Fixed.{Fixed, num, fixed_float}
use loadbear.Sensors.Counters.{CounterSample}
use loadbear.Sensors.Baseline.{new, newest, observe, is_rejected, is_usable, make_room}
use loadbear.Sensors.Baseline.Window.{latencies, observe_all, IsWellFormed, observe_all-newest}

-- A sample with this latency, in thousandths of a second, and this queue.
abbrev sample : ℕ → ℕ → CounterSample Fixed
sample latency queue = record {
  processor_performance_pct = num 0 0;
  processor_frequency_mhz = num 0 0;
  processor_time_pct = num 0 0;
  processor_queue_length = num 0 0;
  pages_input_per_sec = num 0 0;
  available_mbytes = num 0 0;
  disk_seconds_per_transfer = num latency 0;
  disk_queue_length = num (queue * 1000) 0;
}

-- Of three samples one has a backlog and one no transfer.
abbrev three : List (CounterSample Fixed)
three = sample 5 1 ∷ sample 80 2 ∷ sample 0 0 ∷ []

abbrev repeat : ℕ → List Fixed
repeat zero = []
repeat (suc n) = num 5 0 ∷ repeat n

observe_all-three : (observe_all three new).samples ≡ num 5 0 ∷ []
unfolding observe is_rejected make_room
observe_all-three = refl

observe_all-newest_example : (observe_all three new).samples ≡ newest (latencies three)
observe_all-newest_example = observe_all-newest three

new-IsWellFormed : IsWellFormed (new {D = Fixed})
new-IsWellFormed = record { bounded = omega arith; usable = tt }

repeat-is_usable : (n : ℕ) → All (λ v. is_usable v ≡ true) (repeat n)
repeat-is_usable zero = tt
repeat-is_usable (suc n) = (refl, repeat-is_usable n)
