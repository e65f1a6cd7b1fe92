-- ===== src/App/Startup/Examples.antt =====
-- A machine at its start, with two products that its processor can be, and a round in which it is held back.
use loadbear.Core.Verdict.Conservative.{Judges}
use loadbear.App.Startup.Candidates.{clock_verdict_shown}
use loadbear.Prelude.{ℕ, ◌/◌, ◌≡◌, refl, true, false, none, some, [], All, sort_by, show_ℕ}
use loadbear.Float.Fixed.{Fixed, num, nan, fixed_float}
use loadbear.Core.Spec.{candidates, resolve}
use loadbear.Core.Verdict.{VerdictKind, evaluate, under_demand}
use loadbear.Core.Verdict.Fires.{count, count-evaluate}
use loadbear.Core.Samples.{amd_key, banded, lower}
use loadbear.Sensors.Counters.{empty_sample, median, push, actual_mhz}
use loadbear.Sensors.Baseline.{Storage, saturation_point, is_rejected}
use loadbear.Sensors.Baseline
use loadbear.Sensors.Cpuid.{CpuId, current_cpu_key}
use loadbear.App.State.{Setup, Round, Loop}
use loadbear.App.Tick.{initial, reading_of, reading_at}
use loadbear.App.Startup.{setup_of, spec_of}

abbrev same : Fixed → Fixed
same x = x

abbrev rounded : Fixed → ℕ
rounded (num p n) = p / 1000
rounded nan = 0

abbrev processor : CpuId
processor = record {
  vendor_info = some "AuthenticAMD";
  feature_info = some (23, 96, 1);
  brand = none;
}

abbrev setup : Setup Fixed
setup = setup_of (λ text. none) rounded banded processor (some 16) (λ bytes. "Tdie")

abbrev no_file : Storage Fixed
no_file = record {
  path = none;
  read_to_string = λ path. none;
  from_str = λ text. none;
  to_string = λ samples. none;
  write = λ path text. false;
}

abbrev held_back : Round Fixed Fixed
held_back = record {
  raw = record empty_sample {
    processor_performance_pct = num 70000 0;
    processor_frequency_mhz = num 2000000 0;
    processor_time_pct = num 95000 0;
  };
  layout_mismatch = false;
  record_read = none;
  read_ms = 500;
  is_running = true;
  now_ms = 500;
  raw_processes = [];
  file_description = λ path. none;
  containers = [];
  store = no_file;
}

abbrev begun : Loop Fixed Fixed
begun = initial 16 (Baseline.load no_file)

key_of_processor : current_cpu_key processor ≡ some amd_key
unfolding current_cpu_key
key_of_processor = refl

judged_held_back :
    count VerdictKind.below_base_clock
      (evaluate (reading_of same rounded setup held_back begun) setup.spec)
    ≡ 1
unfolding setup_of spec_of resolve current_cpu_key show_ℕ under_demand reading_of reading_at
    actual_mhz median push sort_by
judged_held_back =
    count-evaluate VerdictKind.below_base_clock (reading_of same rounded setup held_back begun)
      setup.spec

clock_verdict_shown_example :
    All
      (Judges (reading_of same rounded setup held_back begun) VerdictKind.below_base_clock)
      (candidates banded amd_key 16)
clock_verdict_shown_example =
    clock_verdict_shown same (λ text. none) rounded banded processor (some 16) (λ bytes. "Tdie")
      amd_key held_back begun key_of_processor judged_held_back
