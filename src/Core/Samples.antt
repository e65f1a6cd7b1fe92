-- ===== src/Core/Samples.antt =====
-- Data for the examples: a small database, processes and readings.
use loadbear.Prelude.{ℕ, ◌*◌, String, Option, none, some, false, List, [], ◌∷◌}
use loadbear.Float.Fixed.{Fixed, num}
use loadbear.Core.Types.{StallSignal, CpuReading, ProcessReading, Reading}
use loadbear.Core.Spec.{Vendor, CpuKey, CpuSpec, SpecDb}
use loadbear.Core.Attribution.Groups.{Lowercase}

-- A whole number.
abbrev pub whole : ℕ → Fixed
whole n = num (n * 1000) 0

-- A part of the database; the band is published or not.
abbrev pub part : ℕ → ℕ → ℕ → Option ℕ → Option ℕ → CpuSpec Fixed
part base_mhz tdp_watts threads ctdp_min ctdp_max = record {
  vendor = Vendor.amd;
  family = 23;
  model = 96;
  stepping = 1;
  name = "Part";
  base_mhz = base_mhz;
  boost_mhz = none;
  tdp_watts = tdp_watts;
  ctdp_min_watts = ctdp_min;
  ctdp_max_watts = ctdp_max;
  tjmax_c = some (whole 105);
  cores = 8;
  threads = threads;
  source = "a page";
}

abbrev pub amd_key : CpuKey
amd_key = record { vendor = Vendor.amd; family = 23; model = 96; stepping = 1 }

abbrev pub intel_key : CpuKey
intel_key = record { vendor = Vendor.intel; family = 6; model = 140; stepping = 1 }

-- Two products of one processor id that publish a band, told apart by nothing here.
abbrev pub slow_part : CpuSpec Fixed
slow_part = part 1700 15 16 (some 10) (some 25)

abbrev pub fast_part : CpuSpec Fixed
fast_part = part 2000 15 16 (some 12) (some 25)

abbrev pub banded : SpecDb Fixed
banded = record { entries = slow_part ∷ fast_part ∷ [] }

-- Two products that publish no band.
abbrev pub low_part : CpuSpec Fixed
low_part = part 1700 15 16 none none

abbrev pub high_part : CpuSpec Fixed
high_part = part 2000 45 16 none none

abbrev pub rated_only : SpecDb Fixed
rated_only = record { entries = low_part ∷ high_part ∷ [] }

abbrev pub quiet : StallSignal Fixed
quiet = record { cpu = num 0 0; memory = num 0 0; io = some (num 0 0) }

abbrev pub idle_cpu : CpuReading Fixed
idle_cpu = record {
  all_core_mhz = some 3000;
  utilization_pct = some (whole 50);
  reported_base_mhz = none;
  package_watts = none;
  package_temp_c = none;
  tjmax_c = none;
  throttle = record { asserted = false; reason = none };
}

-- A busy processor at this clock and power.
abbrev pub busy : ℕ → ℕ → CpuReading Fixed
busy mhz watts = record idle_cpu {
  all_core_mhz = some mhz;
  utilization_pct = some (whole 95);
  package_watts = some (whole watts);
}

-- A processor at this temperature, with this limit.
abbrev pub heated : ℕ → ℕ → CpuReading Fixed
heated temp tjmax = record idle_cpu {
  package_temp_c = some (whole temp);
  tjmax_c = some (whole tjmax);
}

abbrev pub reading_of : CpuReading Fixed → List (ProcessReading Fixed) → Reading Fixed
reading_of cpu processes = record {
  timestamp_ms = 0;
  stall = quiet;
  cpu = cpu;
  processes = processes;
  containers = [];
}

abbrev pub process_of : ℕ → String → ℕ → ℕ → ProcessReading Fixed
process_of pid name cpu bytes = record {
  pid = pid;
  name = name;
  display_name = none;
  working_set_bytes = bytes;
  hard_faults_per_sec = none;
  cpu_percent = whole cpu;
}

-- Names that are lower case already.
instance abbrev pub lower : Lowercase
lower = record { to_lowercase = λ name. name }
