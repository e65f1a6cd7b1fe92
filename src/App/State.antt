-- ===== src/App/State.antt =====
-- crates/loadbear-app/src/main.rs: the variables of the loop, what a round finds, and what is shown.
use loadbear.Prelude.{ℕ, Bool, String, Option, List}
use loadbear.Core.Types.{ProcessReading, ContainerReading, StallSignal}
use loadbear.Core.Spec.{CpuSpec}
use loadbear.Core.Tier.{Tier, TierTracker}
use loadbear.Sensors.Counters.{CounterSample, SampleWindow}
use loadbear.Sensors.Baseline.{DiskBaseline, Storage}
use loadbear.Sensors.Processes.{RawProcess, ProcessSampler}
use loadbear.Sensors.Shared.{SharedTemperature}
use loadbear.App.Words.{Notice}
use loadbear.App.Running.{Contributor}

abbrev pub process_every : ℕ
process_every = 4

abbrev pub history_every : ℕ
history_every = 2

abbrev pub baseline_save_every : ℕ
baseline_save_every = 120

abbrev pub history_points : ℕ
history_points = 300

pub record HistoryPoint (F : Type 0) : Type 0 where
  pub utilization : F
  pub cpu : F
  pub memory : F
  pub io : Option F
  pub tier : ℕ

pub record VerdictView : Type 0 where
  pub kind : String
  pub severity : String
  pub detail : String
  pub basis : String
  pub cause : Option String
  pub action : Option String

pub record ZoneView (F : Type 0) : Type 0 where
  pub label : String
  pub celsius : F
  pub band : Option String

-- What does not change while the loop runs. `from_brand` is the base clock that the brand string states.
pub record Setup (F : Type 0) : Type 0 where
  pub logical : ℕ
  pub spec : Option (CpuSpec F)
  pub from_brand : Option ℕ
  pub decode : List ℕ → String

-- What one round finds. The clock is read twice.
pub record Round (D F : Type 0) : Type 0 where
  pub raw : CounterSample D
  pub layout_mismatch : Bool
  pub record_read : Option (SharedTemperature F)
  pub read_ms : ℕ
  pub is_running : Bool
  pub now_ms : ℕ
  pub raw_processes : List RawProcess
  pub file_description : String → Option String
  pub containers : List (ContainerReading F)
  pub store : Storage D

-- The variables of the loop.
pub record Loop (D F : Type 0) : Type 0 where
  pub window : SampleWindow D
  pub process_sampler : ProcessSampler
  pub tracker : TierTracker
  pub history : List (HistoryPoint F)
  pub tick : ℕ
  pub processes : List (ProcessReading F)
  pub disk_baseline : DiskBaseline D
  pub last_tier : Tier

-- The part of `Status` that is computed in a round. `repaint` is the tier whose icons are set, where it
-- changed.
pub record View (D F : Type 0) : Type 0 where
  pub tier : Tier
  pub base_mhz : Option ℕ
  pub mhz : Option ℕ
  pub watts : Option F
  pub stall : StallSignal F
  pub verdicts : List VerdictView
  pub driver : String
  pub reason : String
  pub history : List (HistoryPoint F)
  pub running : List (Contributor D F)
  pub notice : Notice
  pub temp_zones : List (ZoneView F)
  pub repaint : Option Tier
