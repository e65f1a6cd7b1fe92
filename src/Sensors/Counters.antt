-- ===== src/Sensors/Counters.antt =====
-- crates/loadbear-sensors-windows/src/counters.rs: the performance counters, the window of samples, and the
-- stall signal. What the system answers for a query and for a counter is a parameter, as are the rounding
-- to a `u32` and the cast from `f64` to `f32`.
pub mod Window
pub mod Middle
pub mod Stall
pub mod Query
mod Examples
use loadbear.Prelude.{
  ℕ, zero, suc, ◌-◌, ◌/◌, ◌%◌, max, Bool, true, false, Option, none, some, List, [], ◌∷◌, ◌++◌, map,
  foldl, ◌==◌, if◌then◌else◌, ◌>>=◌, length, get_elem?, drop, unwrap_or, sort_by,
}
use loadbear.Float.{Float, zero_float, clamp}
use loadbear.Core.Types.{StallSignal}

-- One sample of every counter.
pub record CounterSample (D : Type 0) : Type 0 where
  pub processor_performance_pct : D
  pub processor_frequency_mhz : D
  pub processor_time_pct : D
  pub processor_queue_length : D
  pub pages_input_per_sec : D
  pub available_mbytes : D
  pub disk_seconds_per_transfer : D
  pub disk_queue_length : D

-- The paths of the counters, `PATH_PROC_PERFORMANCE` and so on.
pub data CounterPath : Type 0 where
  proc_performance : CounterPath
  proc_frequency : CounterPath
  proc_time : CounterPath
  proc_queue : CounterPath
  pages_input : CounterPath
  available_mb : CounterPath
  disk_latency : CounterPath
  disk_queue : CounterPath

pub data CounterError : Type 0 where
  query_failed : CounterError
  counter_unavailable : CounterPath → CounterError
  no_data : CounterError

pub data Outcome (A : Type 0) : Type 0 where
  ok : A → Outcome A
  err : CounterError → Outcome A

-- The array `paths`.
abbrev pub paths : List CounterPath
paths =
    proc_performance ∷ proc_frequency ∷ proc_time ∷ proc_queue ∷ pages_input ∷ available_mb
    ∷ disk_latency ∷ disk_queue ∷ []

-- The calls that `open` makes on a query that it opened.
pub data QueryCall : Type 0 where
  add_counter : CounterPath → QueryCall
  collect : QueryCall
  close : QueryCall

-- The loop over the paths, from what was called and opened before. `available` says whether the system
-- has a counter.
add_all :
    (CounterPath → Bool)
    → List CounterPath
    → List QueryCall
    → List CounterPath
    → List QueryCall × Outcome (List CounterPath)
add_all available [] calls handles = (calls ++ collect ∷ [], ok handles)
add_all available (p ∷ ps) calls handles =
    let rest = add_all available ps (calls ++ add_counter p ∷ []) (handles ++ p ∷ []) in
    if available p then rest else (calls ++ add_counter p ∷ close ∷ [], err (counter_unavailable p))

-- `open`: the calls on the query, and the counters that are held open.
pub open_counters : Bool → (CounterPath → Bool) → List QueryCall × Outcome (List CounterPath)
unfolding add_all
open_counters opened available =
    if opened then add_all available paths [] [] else ([], err query_failed)

module _ {D : Type 0} where
  -- The `match` on the path of a counter; one that has no value leaves its field alone.
  assign : CounterPath → Option D → CounterSample D → CounterSample D
  assign proc_performance v s = record s {
    processor_performance_pct = unwrap_or v s.processor_performance_pct;
  }
  assign proc_frequency v s = record s {
    processor_frequency_mhz = unwrap_or v s.processor_frequency_mhz;
  }
  assign proc_time v s = record s { processor_time_pct = unwrap_or v s.processor_time_pct }
  assign proc_queue v s = record s { processor_queue_length = unwrap_or v s.processor_queue_length }
  assign pages_input v s = record s { pages_input_per_sec = unwrap_or v s.pages_input_per_sec }
  assign available_mb v s = record s { available_mbytes = unwrap_or v s.available_mbytes }
  assign disk_latency v s = record s {
    disk_seconds_per_transfer = unwrap_or v s.disk_seconds_per_transfer;
  }
  assign disk_queue v s = record s { disk_queue_length = unwrap_or v s.disk_queue_length }

  -- The loop over the open counters.
  fill_sample : (CounterPath → Option D) → List CounterPath → CounterSample D → CounterSample D
  unfolding assign
  fill_sample value [] s = s
  fill_sample value (p ∷ ps) s = fill_sample value ps (assign p (value p) s)

module _ {D : Type 0} ⦃d : Float D⦄ where
  -- `total_physical_mb`, from the bytes that the system tells, if it does.
  pub total_physical_mb : Option ℕ → Option D
  total_physical_mb none = none
  total_physical_mb (some bytes) = some (d.div (d.of_ℕ bytes) (d.decimal 10485760 1))

  -- `CounterSample::default`
  abbrev pub empty_sample : CounterSample D
  empty_sample = record {
    processor_performance_pct = zero_float;
    processor_frequency_mhz = zero_float;
    processor_time_pct = zero_float;
    processor_queue_length = zero_float;
    pages_input_per_sec = zero_float;
    available_mbytes = zero_float;
    disk_seconds_per_transfer = zero_float;
    disk_queue_length = zero_float;
  }

  -- `sample`, where the collection succeeds or fails, and each counter has a value or none.
  pub read_sample : Bool → (CounterPath → Option D) → List CounterPath → Outcome (CounterSample D)
  unfolding fill_sample
  read_sample collected value handles =
      if collected then ok (fill_sample value handles empty_sample) else err no_data

  unfoldable pub actual_mhz : (D → ℕ) → CounterSample D → Option ℕ
  actual_mhz round_u32 s =
      if d.le s.processor_frequency_mhz zero_float
      then none
      else some (
          round_u32 (
            d.div (d.mul s.processor_frequency_mhz s.processor_performance_pct) (d.decimal 1000 1)))

abbrev pub window_samples : ℕ
window_samples = 4

pub record SampleWindow (D : Type 0) : Type 0 where
  pub capacity : ℕ
  pub samples : List (CounterSample D)

module _ {D : Type 0} where
  abbrev pub new : ℕ → SampleWindow D
  new capacity = record { capacity = max capacity 1; samples = [] }

  -- `SampleWindow::default`
  abbrev pub default_window : SampleWindow D
  default_window = new window_samples

  unfoldable pub push : CounterSample D → SampleWindow D → SampleWindow D
  push sample w = record w {
    samples =
        (if length w.samples == w.capacity then drop 1 w.samples else w.samples) ++ sample ∷ [];
  }

  abbrev pub is_empty : SampleWindow D → Bool
  is_empty w = length w.samples == 0

  abbrev pub is_settled : SampleWindow D → Bool
  is_settled w = length w.samples == w.capacity

module _ {D : Type 0} ⦃d : Float D⦄ where
  -- The reduction inside `median`, on the sorted values. An index that is out of bounds has no value.
  middle : List D → Option D
  middle values =
      let mid = length values / 2 in
      if length values % 2 == 0
      then (do
        low ← get_elem? values (mid - 1)
        high ← get_elem? values mid
        some (d.div (d.add low high) (d.decimal 20 1)))
      else get_elem? values mid

  pick : List (CounterSample D) → (CounterSample D → D) → Option D
  unfolding middle
  pick samples f = middle (sort_by d.total_le (map f samples))

  unfoldable pub median : SampleWindow D → Option (CounterSample D)
  unfolding pick
  median w = if is_empty w then none else do
    performance ← pick w.samples (λ s. s.processor_performance_pct)
    frequency ← pick w.samples (λ s. s.processor_frequency_mhz)
    time ← pick w.samples (λ s. s.processor_time_pct)
    queue ← pick w.samples (λ s. s.processor_queue_length)
    pages ← pick w.samples (λ s. s.pages_input_per_sec)
    available ← pick w.samples (λ s. s.available_mbytes)
    latency ← pick w.samples (λ s. s.disk_seconds_per_transfer)
    disk ← pick w.samples (λ s. s.disk_queue_length)
    some (record {
      processor_performance_pct = performance;
      processor_frequency_mhz = frequency;
      processor_time_pct = time;
      processor_queue_length = queue;
      pages_input_per_sec = pages;
      available_mbytes = available;
      disk_seconds_per_transfer = latency;
      disk_queue_length = disk;
    })

  -- The sum of two samples, and a sample divided by a number, field by field.
  abbrev pub plus : CounterSample D → CounterSample D → CounterSample D
  plus sum s = record {
    processor_performance_pct = d.add sum.processor_performance_pct s.processor_performance_pct;
    processor_frequency_mhz = d.add sum.processor_frequency_mhz s.processor_frequency_mhz;
    processor_time_pct = d.add sum.processor_time_pct s.processor_time_pct;
    processor_queue_length = d.add sum.processor_queue_length s.processor_queue_length;
    pages_input_per_sec = d.add sum.pages_input_per_sec s.pages_input_per_sec;
    available_mbytes = d.add sum.available_mbytes s.available_mbytes;
    disk_seconds_per_transfer = d.add sum.disk_seconds_per_transfer s.disk_seconds_per_transfer;
    disk_queue_length = d.add sum.disk_queue_length s.disk_queue_length;
  }

  abbrev pub divided : CounterSample D → D → CounterSample D
  divided sum n = record {
    processor_performance_pct = d.div sum.processor_performance_pct n;
    processor_frequency_mhz = d.div sum.processor_frequency_mhz n;
    processor_time_pct = d.div sum.processor_time_pct n;
    processor_queue_length = d.div sum.processor_queue_length n;
    pages_input_per_sec = d.div sum.pages_input_per_sec n;
    available_mbytes = d.div sum.available_mbytes n;
    disk_seconds_per_transfer = d.div sum.disk_seconds_per_transfer n;
    disk_queue_length = d.div sum.disk_queue_length n;
  }

  pub average : SampleWindow D → Option (CounterSample D)
  average w =
      if is_empty w
      then none
      else some (divided (foldl plus empty_sample w.samples) (d.of_ℕ (length w.samples)))

-- The two floating point types of the source: `D` for `f64`, `F` for `f32`, and the cast between them.
module _ {D F : Type 0} ⦃d : Float D⦄ (as_f32 : D → F) where
  abbrev pub pages_input_saturated : D
  pages_input_saturated = d.decimal 200000 1

  -- A quotient between 0 and 1.
  abbrev pub level : D → D → F
  level x y = as_f32 (clamp (d.div x y) zero_float (d.decimal 10 1))

  unfoldable pub to_stall : CounterSample D → ℕ → Option D → StallSignal F
  to_stall s logical_cpus disk_saturation = record {
    cpu = level s.processor_queue_length (d.of_ℕ (max logical_cpus 1));
    memory = level s.pages_input_per_sec pages_input_saturated;
    io = (do
      p ← disk_saturation
      if d.lt zero_float p then some (level s.disk_seconds_per_transfer p) else none);
  }
