-- ===== src/Core/Types.antt =====
-- crates/loadbear-core/src/types.rs: the normalised reading of a machine.
pub mod Worst
mod Examples
use loadbear.Prelude.{ℕ, Bool, String, Option, none, some, List, if◌then◌else◌}
use loadbear.Float.{Float}

pub data Resource : Type 0 where
  cpu memory io : Resource

-- Shares of the window, 0.0 to 1.0, that work spent waiting.
pub record StallSignal (F : Type 0) : Type 0 where
  pub cpu : F
  pub memory : F
  pub io : Option F

pub data ThrottleReason : Type 0 where
  thermal power electrical other : ThrottleReason

pub record ThrottleState : Type 0 where
  pub asserted : Bool
  pub reason : Option ThrottleReason

pub record CpuReading (F : Type 0) : Type 0 where
  pub all_core_mhz : Option ℕ
  pub utilization_pct : Option F
  pub reported_base_mhz : Option ℕ
  pub package_watts : Option F
  pub package_temp_c : Option F
  pub tjmax_c : Option F
  pub throttle : ThrottleState

pub record ProcessReading (F : Type 0) : Type 0 where
  pub pid : ℕ
  pub name : String
  pub display_name : Option String
  pub working_set_bytes : ℕ
  pub hard_faults_per_sec : Option F
  pub cpu_percent : F

pub record ContainerReading (F : Type 0) : Type 0 where
  pub id : String
  pub name : String
  pub cpu_percent : F
  pub memory_bytes : ℕ
  pub memory_limit_bytes : Option ℕ

pub record Reading (F : Type 0) : Type 0 where
  pub timestamp_ms : ℕ
  pub stall : StallSignal F
  pub cpu : CpuReading F
  pub processes : List (ProcessReading F)
  pub containers : List (ContainerReading F)

module _ {F : Type 0} ⦃f : Float F⦄ where
  -- One of the comparisons of `worst`, with its assignment.
  raise : Resource → F → Resource × F → Resource × F
  raise r x w = if f.lt w.1 x then (r, x) else w

  unfoldable pub worst : StallSignal F → Resource × F
  unfolding raise
  worst s =
      let first : Resource × F = (Resource.cpu, s.cpu) in
      let second = raise Resource.memory s.memory first in
      elim s.io [ none ↦ second | some x ↦ raise Resource.io x second ]
