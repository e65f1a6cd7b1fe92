-- ===== src/Core/Attribution/Leaders/Observed.antt =====
-- Where the process that stands for a leader comes from.
use mathlib.Core.Path.{subst}
use loadbear.Prelude.{
  ℕ, ◌^◌, ◌<◌, ◌≡◌, refl, some, List, [], ◌∷◌, arith, All, Any, All_map, inl, inr, All-sort_by,
  Bool-cases, Option-cases, sort_by, map, ◌==◌, is_some, Any-map, All-filter_of_All, All_Any_refl,
  unwrap_or,
}
use loadbear.Float.{Float, zero_float}
use loadbear.Core.Types.{ProcessReading, Reading}
use loadbear.Core.Attribution.Groups.{Lowercase, ProcessGroup, group_by_name}
use loadbear.Core.Attribution.Groups.Partition.{group_by_name-IsPartition}
use loadbear.Core.Attribution.Leaders.{
  min_coverage, cpu_coverage, by_cpu, by_memory, by_rate, Rated, alone, lead_cpu, lead_memory,
  lead_io, cpu_leader, memory_leader, io_leader, sum_bytes,
}
use loadbear.Core.Attribution.Leaders.Dominant.{lead_memory-LeadsMemory, lead_cpu-LeadsCpu}

module _ {F : Type 0} ⦃f : Float F⦄ where
  -- A process of this id was observed.
  abbrev pub IsObserved : List (ProcessReading F) → ℕ → Type 0
  IsObserved ps pid = Any (λ p. p.pid ≡ pid) ps

  all-IsObserved : (ps : List (ProcessReading F)) → All (λ p. IsObserved ps p.pid) ps
  all-IsObserved = All_Any_refl (λ q p. q.pid ≡ p.pid) (λ p. refl)

  map_rated-All :
      (P : ProcessReading F → Type 0) (ps : List (ProcessReading F))
      → All P ps
      → All (λ (r : Rated F). P r.0) (map (λ p. (p, unwrap_or p.hard_faults_per_sec zero_float)) ps)
  map_rated-All P [] h = tt
  map_rated-All P (p ∷ ps) h = (h.0, map_rated-All P ps h.1)

  lead_io-All :
      (P : ℕ → Type 0) (rs : List (Rated F)) (g : ProcessGroup F)
      → All (λ (r : Rated F). P r.0.pid) rs
      → lead_io rs ≡ some g
      → P g.representative_pid
  unfolding lead_io alone
  lead_io-All P [] g h e = cc
  lead_io-All P (r ∷ []) g h e =
      let e' : r.0.pid ≡ g.representative_pid = ground arith in subst P e' h.0
  lead_io-All P (r ∷ s ∷ rest) g h e =
      let e' : r.0.pid ≡ g.representative_pid = ground arith in subst P e' h.0

  lead_memory-All :
      (P : ProcessGroup F → Type 0) (total : ℕ) (gs : List (ProcessGroup F)) (g : ProcessGroup F)
      → All P gs
      → lead_memory total gs ≡ some g
      → P g
  lead_memory-All P total gs g h e =
      (subst (All P) (lead_memory-LeadsMemory total gs g e).first h).0

  lead_cpu-All :
      (P : ProcessGroup F → Type 0) (gs : List (ProcessGroup F)) (g : ProcessGroup F)
      → All P gs
      → lead_cpu gs ≡ some g
      → P g
  lead_cpu-All P gs g h e = (subst (All P) (lead_cpu-LeadsCpu gs g e).first h).0

module _ {F : Type 0} ⦃f : Float F⦄ ⦃l : Lowercase⦄ (reading : Reading F) (g : ProcessGroup F) where
  abbrev Fits : Type 0
  Fits = All (λ p. p.working_set_bytes < 2 ^ 64) reading.processes

  groups-IsObserved :
      Fits
      → All
          (λ h. IsObserved reading.processes h.representative_pid)
          (group_by_name reading.processes)
  groups-IsObserved fits =
      All_map _ _ (λ h i. Any-map _ _ (λ p q. q.0) reading.processes i.represented) _
        (group_by_name-IsPartition reading.processes fits).groups

  pub memory_leader-IsObserved :
      Fits → memory_leader reading ≡ some g → IsObserved reading.processes g.representative_pid
  unfolding memory_leader
  memory_leader-IsObserved fits e =
      elim (Bool-cases (sum_bytes (sort_by by_memory (group_by_name reading.processes)) == 0)) [
        | inl z ↦ absurd (cc (rw z at e))
        | inr z ↦
            lead_memory-All _ _ _ g (All-sort_by by_memory _ _ (groups-IsObserved fits)) (rw z at e)
      ]

  pub cpu_leader-IsObserved :
      Fits → cpu_leader reading ≡ some g → IsObserved reading.processes g.representative_pid
  unfolding cpu_leader
  cpu_leader-IsObserved fits e =
      elim (Option-cases (cpu_coverage reading.processes reading.cpu.utilization_pct)) [
        | inl n ↦ absurd (cc (rw (n, cpu_leader) at e))
        | inr (c, k) ↦ elim (Bool-cases (f.lt c min_coverage)) [
          | inl z ↦ absurd (cc (rw (k, z, cpu_leader) at e))
          | inr z ↦
              lead_cpu-All _ _ g (All-sort_by by_cpu _ _ (groups-IsObserved fits))
                (rw (k, z, cpu_leader) at e)
        ]
      ]

  pub io_leader-IsObserved :
      io_leader reading ≡ some g → IsObserved reading.processes g.representative_pid
  unfolding io_leader
  io_leader-IsObserved e =
      lead_io-All (IsObserved reading.processes) _ g
        (All-sort_by by_rate _ _ (
          map_rated-All (λ p. IsObserved reading.processes p.pid) _
            (All-filter_of_All (λ p. is_some p.hard_faults_per_sec) _ reading.processes
              (all-IsObserved reading.processes))))
        e
