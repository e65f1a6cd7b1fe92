-- ===== src/Core/Attribution/Leaders.antt =====
-- crates/loadbear-core/src/attribution.rs: the group responsible for the pressure on one resource.
pub mod Dominant
pub mod Observed
mod Examples
use loadbear.Prelude.{
  ℕ, ◌+◌, ◌%◌, ◌^◌, Bool, true, false, ◌&&◌, Option, none, some, List, [], ◌∷◌, map, foldl, ltb,
  leb, ◌==◌, if◌then◌else◌, filter, is_some, unwrap_or, sort_by,
}
use loadbear.Float.{Float, zero_float, clamp, sum_floats}
use loadbear.Core.Types.{ProcessReading, Reading}
use loadbear.Core.Attribution.Groups.{Lowercase, ProcessGroup, group_by_name}

-- A process that reports its hard faults, with the rate.
abbrev pub Rated : Type 0 → Type 0
Rated F = ProcessReading F × F

module _ {F : Type 0} ⦃f : Float F⦄ where
  abbrev pub min_cpu_share_pct : F
  min_cpu_share_pct = f.decimal 200 1

  abbrev pub min_memory_share : F
  min_memory_share = f.decimal 30 2

  abbrev pub dominance : F
  dominance = f.decimal 15 1

  abbrev pub min_coverage : F
  min_coverage = f.decimal 60 2

  unfoldable pub cpu_coverage : List (ProcessReading F) → Option F → Option F
  cpu_coverage processes none = none
  cpu_coverage processes (some machine) =
      if f.le machine zero_float
      then some (f.decimal 10 1)
      else let observed = sum_floats (map (λ p. p.cpu_percent) processes) in
        some (clamp (f.div observed machine) (f.decimal 0 1) (f.decimal 10 1))

  -- The order of `sort_by` with `total_cmp` of the second against the first: the greatest first.
  abbrev pub by_cpu : ProcessGroup F → ProcessGroup F → Bool
  by_cpu a b = f.total_le b.cpu_percent a.cpu_percent

  -- The order of `sort_by_key` with `Reverse`.
  abbrev pub by_memory : ProcessGroup F → ProcessGroup F → Bool
  by_memory a b = leb b.working_set_bytes a.working_set_bytes

  -- The runner-up is so near that the leader is not named.
  abbrev pub close_cpu : F → F → Bool
  close_cpu second leader = f.lt zero_float second && f.lt leader (f.mul second dominance)

  abbrev pub close_memory : ProcessGroup F → ProcessGroup F → Bool
  close_memory second leader =
      ltb 0 second.working_set_bytes
      && f.lt (f.of_ℕ leader.working_set_bytes) (f.mul (f.of_ℕ second.working_set_bytes) dominance)

  -- The tests on the ranked groups.
  unfoldable pub lead_cpu : List (ProcessGroup F) → Option (ProcessGroup F)
  lead_cpu [] = none
  lead_cpu (leader ∷ []) = if f.lt leader.cpu_percent min_cpu_share_pct then none else some leader
  lead_cpu (leader ∷ second ∷ rest) =
      if f.lt leader.cpu_percent min_cpu_share_pct
      then none
      else if close_cpu second.cpu_percent leader.cpu_percent
      then none
      else some leader

  -- The sum of unsigned 64-bit numbers, which wraps.
  abbrev pub sum_bytes : List (ProcessGroup F) → ℕ
  sum_bytes = foldl (λ total g. (total + g.working_set_bytes) % 2 ^ 64) 0

  pub lead_memory : ℕ → List (ProcessGroup F) → Option (ProcessGroup F)
  lead_memory total [] = none
  lead_memory total (leader ∷ []) =
      if f.lt (f.div (f.of_ℕ leader.working_set_bytes) (f.of_ℕ total)) min_memory_share
      then none
      else some leader
  lead_memory total (leader ∷ second ∷ rest) =
      if f.lt (f.div (f.of_ℕ leader.working_set_bytes) (f.of_ℕ total)) min_memory_share
      then none
      else if close_memory second leader
      then none
      else some leader

  abbrev pub by_rate : Rated F → Rated F → Bool
  by_rate a b = f.total_le b.1 a.1

  abbrev pub rated : List (ProcessReading F) → List (Rated F)
  rated processes =
      map (λ p. (p, unwrap_or p.hard_faults_per_sec zero_float))
        (filter (λ p. is_some p.hard_faults_per_sec) processes)

  pub alone : ProcessReading F → ProcessGroup F
  alone p = record {
    name = p.name;
    display = p.display_name;
    representative_pid = p.pid;
    count = 1;
    cpu_percent = p.cpu_percent;
    working_set_bytes = p.working_set_bytes;
  }

  pub lead_io : List (Rated F) → Option (ProcessGroup F)
  lead_io [] = none
  lead_io ((leader, rate) ∷ []) = if f.le rate zero_float then none else some (alone leader)
  lead_io ((leader, rate) ∷ (other, second) ∷ rest) =
      if f.le rate zero_float
      then none
      else if close_cpu second rate
      then none
      else some (alone leader)

  pub io_leader : Reading F → Option (ProcessGroup F)
  io_leader reading = lead_io (sort_by by_rate (rated reading.processes))

module _ {F : Type 0} ⦃f : Float F⦄ ⦃l : Lowercase⦄ where
  unfoldable pub cpu_leader : Reading F → Option (ProcessGroup F)
  cpu_leader reading = elim (cpu_coverage reading.processes reading.cpu.utilization_pct) [
    | none ↦ none
    | some c ↦
        if f.lt c min_coverage
        then none
        else lead_cpu (sort_by by_cpu (group_by_name reading.processes))
  ]

  pub memory_leader : Reading F → Option (ProcessGroup F)
  memory_leader reading =
      let groups = sort_by by_memory (group_by_name reading.processes) in
      let total = sum_bytes groups in if total == 0 then none else lead_memory total groups
