-- ===== src/App/Words.antt =====
-- crates/loadbear-app/src/main.rs: the sentences of the interface.
pub mod Reason
mod Examples
use loadbear.Prelude.{
  Bool, true, false, not, ◌&&◌, String, [], ◌∷◌, concat, ltb, ◌==◌, if◌then◌else◌, Option, none,
  some,
}
use loadbear.Core.Types.{Resource}
use loadbear.Core.Verdict.{VerdictKind}
use loadbear.Core.Contract.{Remediation}
use loadbear.Core.Tier.{Tier, rank, TierReason, Assessment}

abbrev pub remediation_text : Remediation → String
remediation_text Remediation.stop = "Close it if you are not using it."
remediation_text Remediation.reconfigure_limit =
    "Give it less memory in Docker Desktop settings, or in .wslconfig."
remediation_text Remediation.add_exclusion =
    "Add your project folder to its exclusion list so it stops scanning it."
remediation_text Remediation.defer = "Pause it until you have finished what you are doing."
remediation_text Remediation.change_power_state =
    "Check the charger. An underpowered supply limits how hard the processor may work."
remediation_text Remediation.physical = "Check the vents are clear and the fans are not blocked."

abbrev pub verdict_clause : VerdictKind → String
verdict_clause VerdictKind.below_base_clock = "Running slower than the manufacturer promises"
verdict_clause VerdictKind.throttling = "The processor is holding itself back"
verdict_clause VerdictKind.power_outside_band = "Power draw outside its rated range"
verdict_clause VerdictKind.power_below_rating =
    "The machine is not getting the power it is rated for"
verdict_clause VerdictKind.thermal_headroom_low = "Close to the temperature limit"

abbrev pub stall_clause : Resource → String
stall_clause Resource.cpu = "Work is queueing for a free processor"
stall_clause Resource.memory = "Work is stopping to fetch memory from disk"
stall_clause Resource.io = "Work is waiting on the disk"

pub describe : TierReason → String
describe TierReason.clear = "Nothing is waiting for a resource."
describe (TierReason.verdict kind) = concat (verdict_clause kind ∷ "." ∷ [])
describe (TierReason.stall resource) = concat (stall_clause resource ∷ "." ∷ [])

abbrev pub is_clear : TierReason → Bool
is_clear TierReason.clear = true
is_clear (TierReason.verdict kind) = false
is_clear (TierReason.stall resource) = false

abbrev pub is_verdict : TierReason → Bool
is_verdict TierReason.clear = false
is_verdict (TierReason.verdict kind) = true
is_verdict (TierReason.stall resource) = false

pub reason_text : Assessment → Assessment → Bool → String
unfolding describe
reason_text adopted latest settled =
    if not settled && is_clear adopted.reason && is_clear latest.reason
    then "Starting up."
    else if rank latest.tier == rank adopted.tier && is_verdict adopted.reason
    then ""
    else if not (rank latest.tier == rank adopted.tier)
    then (if ltb (rank adopted.tier) (rank latest.tier)
        then concat (describe latest.reason ∷ " Watching to see whether it holds." ∷ [])
        else concat (describe latest.reason ∷ " Easing off." ∷ []))
    else describe adopted.reason

abbrev pub driver_word : Assessment → String
driver_word a = elim a.reason [
  | TierReason.clear ↦ ""
  | TierReason.verdict kind ↦ "cpu"
  | TierReason.stall r ↦ elim r [
    | Resource.cpu ↦ "cpu"
    | Resource.memory ↦ "memory"
    | Resource.io ↦ "disk"
  ]
]

abbrev pub verdict_title : VerdictKind → String
verdict_title VerdictKind.below_base_clock = "Running below the promised speed"
verdict_title VerdictKind.throttling = "The processor is holding itself back"
verdict_title VerdictKind.power_outside_band = "Power draw outside its rated range"
verdict_title VerdictKind.power_below_rating = "Not getting the power it is rated for"
verdict_title VerdictKind.thermal_headroom_low = "Close to the temperature limit"

-- What is said about temperatures: whether there are any, whether the user can act, and the sentence.
pub record Notice : Type 0 where
  pub temp_available : Bool
  pub temp_offerable : Bool
  pub temp_reason : String

abbrev pub notice : Bool → Bool → String → Notice
notice temp_available temp_offerable temp_reason = record {
  temp_available = temp_available;
  temp_offerable = temp_offerable;
  temp_reason = temp_reason;
}

-- The choice by the layout, by whether a record is published and its helper current, and by whether the
-- service runs.
unfoldable pub temperature_notice : Bool → Option Bool → Bool → Notice
temperature_notice layout_mismatch published is_running =
    if layout_mismatch
    then notice false true "The background helper is out of date and needs updating."
    else elim published [
      | some current ↦
          if current
          then notice true false ""
          else notice true true "An update is available for the background helper."
      | none ↦
          if is_running
          then notice false false "The helper is running but has not published a reading yet."
          else notice false true
              "Temperature needs a small background helper, which runs with                              system access so LoadBear itself never has to."
    ]
