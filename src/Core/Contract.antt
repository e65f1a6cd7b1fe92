-- ===== src/Core/Contract.antt =====
-- crates/loadbear-core/src/contract.rs: what a finding carries, and when it may interrupt.
use loadbear.Prelude.{ℕ, Bool, ◌&&◌, String, Option, is_some}
use loadbear.Core.Verdict.{Verdict}

pub data CauseKind : Type 0 where
  process : ℕ → CauseKind
  container : String → CauseKind
  system_service power_state : CauseKind

pub record Cause : Type 0 where
  pub label : String
  pub kind : CauseKind

pub data Remediation : Type 0 where
  stop reconfigure_limit add_exclusion defer change_power_state physical : Remediation

pub record Finding : Type 0 where
  pub verdict : Verdict
  pub cause : Option Cause
  pub remediation : Option Remediation

unfoldable pub is_actionable : Finding → Bool
is_actionable f = is_some f.cause && is_some f.remediation
