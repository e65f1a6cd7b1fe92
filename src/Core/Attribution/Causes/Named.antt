-- ===== src/Core/Attribution/Causes/Named.antt =====
-- What `attribute` names, against the reading.
use mathlib.Core.Path.{subst}
use loadbear.Prelude.{
  ◌^◌, ◌<◌, ◌≡◌, refl, Option, none, some, List, [], ◌∷◌, arith, All, Any, inl, inr, All-sort_by,
  Bool-cases, Option-cases, All_Any_refl,
}
use loadbear.Float.{Float}
use loadbear.Core.Types.{Resource, ContainerReading, Reading}
use loadbear.Core.Contract.{CauseKind, Cause, Remediation}
use loadbear.Core.Attribution.Groups.{Lowercase, ProcessGroup}
use loadbear.Core.Attribution.Leaders.Observed.{
  IsObserved, memory_leader-IsObserved, cpu_leader-IsObserved, io_leader-IsObserved,
}
use loadbear.Core.Attribution.Causes.{
  by_resource, lead_container, resolve_container, is_docker, leader_for, docker_cause,
  process_cause, cause_of, attribute,
}

module _ {F : Type 0} ⦃f : Float F⦄ where
  -- What the cause points at is in the reading.
  abbrev pub Names : Reading F → CauseKind → Type 0
  Names reading (CauseKind.process pid) = IsObserved reading.processes pid
  Names reading (CauseKind.container id) = Any (λ c. c.id ≡ id) reading.containers
  Names reading CauseKind.system_service = Unit
  Names reading CauseKind.power_state = ⊥

  lead_container-All :
      (P : ContainerReading F → Type 0) (resource : Resource) (cs : List (ContainerReading F))
      (c : ContainerReading F)
      → All P cs
      → lead_container resource cs ≡ some c
      → P c
  unfolding lead_container
  lead_container-All P resource [] c h e = cc
  lead_container-All P resource (a ∷ []) c h e = let e' : a ≡ c = ground arith in subst P e' h.0
  lead_container-All P resource (a ∷ b ∷ rest) c h e =
      let e' : a ≡ c = ground arith in subst P e' h.0

  resolve_container-Any :
      (cs : List (ContainerReading F)) (resource : Resource) (c : ContainerReading F)
      → resolve_container cs resource ≡ some c
      → Any (λ d. d.id ≡ c.id) cs
  unfolding resolve_container
  resolve_container-Any cs resource c e =
      lead_container-All (λ d. Any (λ k. k.id ≡ d.id) cs) resource _ c
        (All-sort_by (by_resource resource) _ cs (All_Any_refl (λ k d. k.id ≡ d.id) (λ d. refl) cs))
        e

module _ {F : Type 0} ⦃f : Float F⦄ ⦃l : Lowercase⦄ (reading : Reading F) where
  leader_for-IsObserved :
      (resource : Resource) (g : ProcessGroup F)
      → All (λ p. p.working_set_bytes < 2 ^ 64) reading.processes
      → leader_for reading resource ≡ some g
      → IsObserved reading.processes g.representative_pid
  unfolding leader_for
  leader_for-IsObserved Resource.cpu g fits e = cpu_leader-IsObserved reading g fits e
  leader_for-IsObserved Resource.memory g fits e = memory_leader-IsObserved reading g fits e
  leader_for-IsObserved Resource.io g fits e = io_leader-IsObserved reading g e

  process_cause-Names :
      (g : ProcessGroup F) (r : Option Remediation)
      → IsObserved reading.processes g.representative_pid
      → Names reading (process_cause g r).0.kind
  unfolding process_cause
  process_cause-Names g none o = o
  process_cause-Names g (some r) o = tt

  docker_cause-Names :
      (g : ProcessGroup F) (c : Option (ContainerReading F))
      → IsObserved reading.processes g.representative_pid
      → ((d : ContainerReading F) → c ≡ some d → Any (λ k. k.id ≡ d.id) reading.containers)
      → Names reading (docker_cause g c).0.kind
  unfolding docker_cause
  docker_cause-Names g none o h = o
  docker_cause-Names g (some d) o h = h d refl

  cause_of-Names :
      (resource : Resource) (g : ProcessGroup F)
      → IsObserved reading.processes g.representative_pid
      → Names reading (cause_of reading resource g).0.kind
  unfolding cause_of
  cause_of-Names resource g o = elim (Bool-cases (is_docker g.name)) [
    | inl d ↦ rw d (docker_cause-Names g _ o (resolve_container-Any reading.containers resource))
    | inr d ↦ rw d (process_cause-Names g _ o)
  ]

  -- Where every working set has 64 bits, a cause that is named was observed: a process id is that
  -- of an observed process, a container id that of an observed container, and the power state is
  -- never named here.
  pub attribute-Names :
      (resource : Resource) (answer : Cause × Remediation)
      → All (λ p. p.working_set_bytes < 2 ^ 64) reading.processes
      → attribute reading resource ≡ some answer
      → Names reading answer.0.kind
  unfolding attribute
  attribute-Names resource answer fits e = elim (Option-cases (leader_for reading resource)) [
    | inl n ↦ absurd (cc (rw n at e))
    | inr (g, k) ↦
        let k' = rw k at e in
        let e' : cause_of reading resource g ≡ answer = cc in
        subst (λ (a : Cause × Remediation). Names reading a.0.kind) e'
          (cause_of-Names resource g (leader_for-IsObserved resource g fits k))
  ]
