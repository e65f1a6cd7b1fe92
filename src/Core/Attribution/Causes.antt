-- ===== src/Core/Attribution/Causes.antt =====
-- crates/loadbear-core/src/attribution.rs: the cause and the action for a leader, and the findings.
pub mod Named
pub mod Findings
mod Examples
use text.Mathlib.Text.{starts_with, ◌==◌ as str_eq}
use loadbear.Prelude.{
  ℕ, ◌*◌, Bool, true, false, ◌&&◌, String, Option, none, some, ◌>>=◌, List, [], ◌∷◌, map, ltb, leb,
  if◌then◌else◌, any, find, sort_by,
}
use loadbear.Float.{Float, zero_float}
use loadbear.Core.Types.{Resource, worst, ContainerReading, Reading}
use loadbear.Core.Verdict.{VerdictKind, Verdict}
use loadbear.Core.Contract.{CauseKind, Cause, Remediation, Finding}
use loadbear.Core.Tier.{stall_braced}
use loadbear.Core.Attribution.Groups.{Lowercase, ProcessGroup, label}
use loadbear.Core.Attribution.Leaders.{dominance, cpu_leader, memory_leader, io_leader}

abbrev pub docker_processes : List String
docker_processes =
    "vmmem" ∷ "vmmemwsl" ∷ "vmmemdocker" ∷ "docker desktop" ∷ "com.docker.backend" ∷ []

abbrev pub system_processes : List (String × Remediation)
system_processes =
    ("msmpeng", Remediation.add_exclusion)
    ∷ ("antimalware service executable", Remediation.add_exclusion)
    ∷ ("searchindexer", Remediation.defer)
    ∷ ("searchprotocolhost", Remediation.defer)
    ∷ ("tiworker", Remediation.defer)
    ∷ ("trustedinstaller", Remediation.defer)
    ∷ []

module _ ⦃l : Lowercase⦄ where
  pub is_docker : String → Bool
  is_docker name = let n = l.to_lowercase name in any (λ d. starts_with n d) docker_processes

  pub system_remediation : String → Option Remediation
  system_remediation name =
      let n = l.to_lowercase name in
      elim (find (λ entry. starts_with n entry.0) system_processes) [
        | none ↦ none
        | some e ↦ some e.1
      ]

module _ {F : Type 0} ⦃f : Float F⦄ where
  abbrev pub by_resource : Resource → ContainerReading F → ContainerReading F → Bool
  by_resource Resource.cpu a b = f.total_le b.cpu_percent a.cpu_percent
  by_resource Resource.memory a b = leb b.memory_bytes a.memory_bytes
  by_resource Resource.io a b = leb b.memory_bytes a.memory_bytes

  abbrev pub size_for : Resource → ContainerReading F → F
  size_for Resource.cpu c = c.cpu_percent
  size_for Resource.memory c = f.of_ℕ c.memory_bytes
  size_for Resource.io c = f.of_ℕ c.memory_bytes

  pub lead_container : Resource → List (ContainerReading F) → Option (ContainerReading F)
  lead_container resource [] = none
  lead_container resource (leader ∷ []) = some leader
  lead_container resource (leader ∷ second ∷ rest) =
      let s = size_for resource second in
      if f.lt zero_float s && f.lt (size_for resource leader) (f.mul s dominance)
      then none
      else some leader

  pub resolve_container : List (ContainerReading F) → Resource → Option (ContainerReading F)
  resolve_container containers resource =
      lead_container resource (sort_by (by_resource resource) containers)

  at_limit : ContainerReading F → Option ℕ → Bool
  at_limit c none = false
  at_limit c (some limit) =
      ltb 0 limit && f.le (f.mul (f.of_ℕ limit) (f.decimal 95 2)) (f.of_ℕ c.memory_bytes)

  pub container_remediation : ContainerReading F → Remediation
  unfolding at_limit
  container_remediation c =
      if at_limit c c.memory_limit_bytes then Remediation.reconfigure_limit else Remediation.stop

abbrev pub kind_resource : VerdictKind → Option Resource
kind_resource VerdictKind.power_below_rating = none
kind_resource _ = some Resource.cpu

abbrev pub starved_cause : Cause
starved_cause = record {
  label = "The power being supplied to this machine";
  kind = CauseKind.power_state;
}

finding_of : Verdict → Option (Cause × Remediation) → Finding
finding_of verdict none = record { verdict = verdict; cause = none; remediation = none }
finding_of verdict (some (cause, remediation)) = record {
  verdict = verdict;
  cause = some cause;
  remediation = some remediation;
}

module _ {F : Type 0} ⦃f : Float F⦄ ⦃l : Lowercase⦄ where
  pub leader_for : Reading F → Resource → Option (ProcessGroup F)
  leader_for reading Resource.cpu = cpu_leader reading
  leader_for reading Resource.memory = memory_leader reading
  leader_for reading Resource.io = io_leader reading

  -- The answer for Docker, with the container where one can be named.
  docker_cause : ProcessGroup F → Option (ContainerReading F) → Cause × Remediation
  docker_cause leader none = (
    record { label = "Docker"; kind = CauseKind.process leader.representative_pid },
    Remediation.reconfigure_limit,
  )
  docker_cause leader (some c) =
      (record { label = c.name; kind = CauseKind.container c.id }, container_remediation c)

  -- The answer for a system process, or else for an ordinary one.
  process_cause : ProcessGroup F → Option Remediation → Cause × Remediation
  process_cause leader none = (
    record { label = label leader; kind = CauseKind.process leader.representative_pid },
    Remediation.stop,
  )
  process_cause leader (some remediation) =
      (record { label = label leader; kind = CauseKind.system_service }, remediation)

  -- The part of `attribute` below the leader.
  cause_of : Reading F → Resource → ProcessGroup F → Cause × Remediation
  cause_of reading resource leader =
      if is_docker leader.name
      then docker_cause leader (resolve_container reading.containers resource)
      else process_cause leader (system_remediation leader.name)

  pub attribute : Reading F → Resource → Option (Cause × Remediation)
  unfolding cause_of
  attribute reading resource = do
    leader ← leader_for reading resource
    some (cause_of reading resource leader)

  pub resource_for : Reading F → Verdict → Option Resource
  resource_for reading verdict =
      let (resource, level) = worst reading.stall in
      if f.le stall_braced level then some resource else kind_resource verdict.kind

  -- The body of the loop, by the kind of the verdict.
  diagnose_one : Reading F → Verdict → VerdictKind → Finding
  unfolding finding_of
  diagnose_one reading verdict VerdictKind.power_below_rating = record {
    verdict = verdict;
    cause = some starved_cause;
    remediation = some Remediation.change_power_state;
  }
  diagnose_one reading verdict _ =
      finding_of verdict (resource_for reading verdict >>= λ r. attribute reading r)

  pub diagnose : Reading F → List Verdict → List Finding
  unfolding diagnose_one
  diagnose reading = map (λ verdict. diagnose_one reading verdict verdict.kind)
