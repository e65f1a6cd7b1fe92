-- ===== src/Core/Attribution/Causes/Examples.antt =====
-- Causes named in small readings.
use loadbear.Prelude.{◌≡◌, refl, some, [], ◌∷◌, sort_by, arith}
use loadbear.Float.Fixed.{Fixed, fixed_float}
use loadbear.Core.Types.{Resource, Reading}
use loadbear.Core.Contract.{CauseKind, Cause, Remediation}
use loadbear.Core.Attribution.Groups.{new_group, add_process, group_by_name, label}
use loadbear.Core.Attribution.Leaders.{cpu_coverage, cpu_leader, lead_cpu}
use loadbear.Core.Attribution.Causes.{
  is_docker, system_remediation, leader_for, process_cause, cause_of, attribute,
}
use loadbear.Core.Attribution.Causes.Named.{Names, attribute-Names}
use loadbear.Core.Samples.{lower, idle_cpu, reading_of, process_of}

abbrev loaded : Reading Fixed
loaded = reading_of idle_cpu (process_of 100 "ollama" 40 8000 ∷ process_of 200 "code" 5 1000 ∷ [])

abbrev stopped : Cause × Remediation
stopped = (record { label = "ollama"; kind = CauseKind.process 100 }, Remediation.stop)

attribute-loaded : attribute loaded Resource.cpu ≡ some stopped
unfolding attribute leader_for cause_of is_docker process_cause system_remediation label cpu_leader
    cpu_coverage lead_cpu group_by_name add_process new_group sort_by
attribute-loaded = refl

attribute-Names_example : Names loaded stopped.0.kind
attribute-Names_example =
    attribute-Names loaded Resource.cpu stopped (omega arith, (omega arith, tt)) attribute-loaded
