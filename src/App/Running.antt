-- ===== src/App/Running.antt =====
-- crates/loadbear-app/src/main.rs: `running_list`, the processes by weight, with containers under Docker.
pub mod Rows
mod Examples
use text.Mathlib.Text.{starts_with}
use loadbear.Prelude.{
  ℕ, zero, suc, Bool, true, false, not, ◌&&◌, ◌||◌, String, Option, none, some, List, [], ◌∷◌, ◌++◌,
  leb, if◌then◌else◌, any, map, sort_by, ◌>>=◌,
}
use loadbear.Float.{Float}
use loadbear.Core.Types.{Resource, ProcessReading, ContainerReading, Reading}
use loadbear.Core.Tier.{TierReason, Assessment}
use loadbear.Core.Attribution.Groups.{Lowercase, ProcessGroup, group_by_name, label}

pub record Contributor (D F : Type 0) : Type 0 where
  pub name : String
  pub cpu : F
  pub memory_mb : D
  pub is_container : Bool
  pub limit_mb : Option D

abbrev pub running_rows : ℕ
running_rows = 14

-- `Iterator::take`
abbrev pub take {ℓ} : {A : Type ℓ} → ℕ → List A → List A
take zero xs = []
take (suc n) [] = []
take (suc n) (x ∷ xs) = x ∷ take n xs

abbrev pub ranked_by : Assessment → Resource
ranked_by a = elim a.reason [
  | TierReason.clear ↦ Resource.cpu
  | TierReason.verdict kind ↦ Resource.cpu
  | TierReason.stall r ↦ r
]

pub is_docker_name : ⦃l : Lowercase⦄ → String → Bool
is_docker_name ⦃l⦄ name =
    let n = l.to_lowercase name in
    any (λ d. starts_with n d) ("vmmem" ∷ "docker desktop" ∷ "com.docker" ∷ [])

module _ {F : Type 0} ⦃f : Float F⦄ where
  -- The comparison of groups: it is not `Greater`. Equal shares are told apart by memory.
  pub by_weight : Resource → ProcessGroup F → ProcessGroup F → Bool
  by_weight Resource.cpu a b =
      f.total_le b.cpu_percent a.cpu_percent
      && (not (f.total_le a.cpu_percent b.cpu_percent)
          || leb b.working_set_bytes a.working_set_bytes)
  by_weight Resource.memory a b = leb b.working_set_bytes a.working_set_bytes
  by_weight Resource.io a b = leb b.working_set_bytes a.working_set_bytes

  pub by_container : Resource → ContainerReading F → ContainerReading F → Bool
  by_container Resource.cpu a b = f.total_le b.cpu_percent a.cpu_percent
  by_container Resource.memory a b = leb b.memory_bytes a.memory_bytes
  by_container Resource.io a b = leb b.memory_bytes a.memory_bytes

module _ {D : Type 0} ⦃d : Float D⦄ where
  -- `as f64 / 1_048_576.0`
  abbrev megabytes : ℕ → D
  megabytes bytes = d.div (d.of_ℕ bytes) (d.decimal 10485760 1)

module _ {D F : Type 0} ⦃d : Float D⦄ ⦃f : Float F⦄ ⦃l : Lowercase⦄ where
  group_row : ProcessGroup F → Contributor D F
  group_row g = record {
    name = if is_docker_name g.name then "Docker" else label g;
    cpu = g.cpu_percent;
    memory_mb = megabytes g.working_set_bytes;
    is_container = false;
    limit_mb = none;
  }

  container_row : ContainerReading F → Contributor D F
  container_row c = record {
    name = c.name;
    cpu = c.cpu_percent;
    memory_mb = megabytes c.memory_bytes;
    is_container = true;
    limit_mb = (do l ← c.memory_limit_bytes; some (megabytes l));
  }

  -- The rows of a group: itself, and under Docker the four containers of the most weight.
  rows_of : Resource → List (ContainerReading F) → ProcessGroup F → List (Contributor D F)
  unfolding group_row container_row by_container
  rows_of resource containers g =
      group_row g
      ∷ (if is_docker_name g.name
          then map container_row (take 4 (sort_by (by_container resource) containers))
          else [])

  all_rows : Resource → List (ContainerReading F) → List (ProcessGroup F) → List (Contributor D F)
  unfolding rows_of
  all_rows resource containers [] = []
  all_rows resource containers (g ∷ gs) =
      rows_of resource containers g ++ all_rows resource containers gs

  pub running_list : Reading F → Assessment → List (Contributor D F)
  unfolding all_rows by_weight
  running_list reading assessment =
      let resource = ranked_by assessment in
      all_rows resource reading.containers
        (take running_rows (sort_by (by_weight resource) (group_by_name reading.processes)))
