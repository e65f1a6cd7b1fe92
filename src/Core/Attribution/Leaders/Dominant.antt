-- ===== src/Core/Attribution/Leaders/Dominant.antt =====
-- The leaders for memory and for the processor against the other groups.
use loadbear.Prelude.{
  ℕ, ◌≤◌, ◌≡◌, sym, true, false, none, some, List, [], ◌∷◌, arith, All, All_map, All_of_sort_by,
  Bool-cases, Option-cases, inl, inr, leb→le, ◌==◌, sort_by, sort_by-IsSortedBy, IsSortedBy,
  if◌then◌else◌,
}
use mathlib.Core.Path.{subst}
use loadbear.Float.{Float}
use loadbear.Float.Laws.{IsTotal}
use loadbear.Core.Types.{Reading}
use loadbear.Core.Attribution.Groups.{Lowercase, ProcessGroup, group_by_name}
use loadbear.Core.Attribution.Leaders.{
  min_cpu_share_pct, min_memory_share, min_coverage, cpu_coverage, by_cpu, by_memory, close_cpu,
  close_memory, lead_cpu, lead_memory, sum_bytes, cpu_leader, memory_leader,
}

module _ {F : Type 0} ⦃f : Float F⦄ where
  -- The runner-up, where there is one, does not come near.
  abbrev pub ClearMemory : ProcessGroup F → List (ProcessGroup F) → Type 0
  ClearMemory g [] = Unit
  ClearMemory g (h ∷ rest) = close_memory h g ≡ false

  abbrev pub ClearCpu : ProcessGroup F → List (ProcessGroup F) → Type 0
  ClearCpu g [] = Unit
  ClearCpu g (h ∷ rest) = close_cpu h.cpu_percent g.cpu_percent ≡ false

  -- A leader named from ranked groups is the first of them, and has passed the tests.
  pub record LeadsMemory (total : ℕ) (groups : List (ProcessGroup F)) (g : ProcessGroup F)
      : Type 0 where
    pub rest : List (ProcessGroup F)
    pub first : groups ≡ g ∷ rest
    pub share : f.lt (f.div (f.of_ℕ g.working_set_bytes) (f.of_ℕ total)) min_memory_share ≡ false
    pub clear : ClearMemory g rest

  pub record LeadsCpu (groups : List (ProcessGroup F)) (g : ProcessGroup F) : Type 0 where
    pub rest : List (ProcessGroup F)
    pub first : groups ≡ g ∷ rest
    pub share : f.lt g.cpu_percent min_cpu_share_pct ≡ false
    pub clear : ClearCpu g rest

  pub lead_memory-LeadsMemory :
      (total : ℕ) (groups : List (ProcessGroup F)) (g : ProcessGroup F)
      → lead_memory total groups ≡ some g
      → LeadsMemory total groups g
  unfolding lead_memory
  lead_memory-LeadsMemory total [] g e = cc
  lead_memory-LeadsMemory total (h ∷ []) g e = record {
    rest = [];
    first = ground arith;
    share = ground arith;
    clear = tt;
  }
  lead_memory-LeadsMemory total (h ∷ k ∷ rest) g e = record {
    rest = k ∷ rest;
    first = ground arith;
    share = ground arith;
    clear = ground arith;
  }

  pub lead_cpu-LeadsCpu :
      (groups : List (ProcessGroup F)) (g : ProcessGroup F)
      → lead_cpu groups ≡ some g
      → LeadsCpu groups g
  unfolding lead_cpu
  lead_cpu-LeadsCpu [] g e = cc
  lead_cpu-LeadsCpu (h ∷ []) g e = record {
    rest = [];
    first = ground arith;
    share = ground arith;
    clear = tt;
  }
  lead_cpu-LeadsCpu (h ∷ k ∷ rest) g e = record {
    rest = k ∷ rest;
    first = ground arith;
    share = ground arith;
    clear = ground arith;
  }

  by_memory_total : (a b : ProcessGroup F) → by_memory a b ≡ false → by_memory b a ≡ true
  by_memory_total a b h = ground arith

  by_memory_trans :
      (a b c : ProcessGroup F) → by_memory a b ≡ true → by_memory b c ≡ true → by_memory a c ≡ true
  by_memory_trans a b c p q = ground arith

module _ {F : Type 0} ⦃f : Float F⦄ ⦃l : Lowercase⦄ (reading : Reading F) (g : ProcessGroup F) where
  abbrev groups : List (ProcessGroup F)
  groups = group_by_name reading.processes

  -- The leader for memory is the first of the ranked groups; no group holds more memory, its share of
  -- all observed memory is not below the limit, and the runner-up is clearly behind.
  pub memory_leader-dominates :
      memory_leader reading ≡ some g
      → LeadsMemory
          (sum_bytes (sort_by by_memory (group_by_name reading.processes)))
          (sort_by by_memory (group_by_name reading.processes))
          g
        × All (λ h. h.working_set_bytes ≤ g.working_set_bytes) (group_by_name reading.processes)
  unfolding memory_leader
  memory_leader-dominates e = elim (Bool-cases (sum_bytes (sort_by by_memory groups) == 0)) [
    | inl z ↦ absurd (cc (rw z at e))
    | inr z ↦
        let leads = lead_memory-LeadsMemory _ _ g (rw z at e) in
        (leads, All_of_sort_by by_memory _ groups (below leads))
  ]
    where
      below :
          LeadsMemory (sum_bytes (sort_by by_memory groups)) (sort_by by_memory groups) g
          → All (λ h. h.working_set_bytes ≤ g.working_set_bytes) (sort_by by_memory groups)
      below leads =
          let sorted : IsSortedBy by_memory (g ∷ leads.rest) =
            subst (IsSortedBy by_memory) leads.first
              (sort_by-IsSortedBy by_memory by_memory_total by_memory_trans groups) in
          subst (All (λ h. h.working_set_bytes ≤ g.working_set_bytes)) (sym leads.first)
            (omega arith, All_map _ _ (λ h q. leb→le _ _ q) leads.rest sorted.0)

  -- Where `total_cmp` is a total order, the leader for the processor is named only where the
  -- visible processes account for enough of the measured activity. It is the first of the ranked
  -- groups; no group has more of the processor, its share is not below the limit, and the
  -- runner-up is clearly behind.
  pub cpu_leader-dominates :
      IsTotal F
      → cpu_leader reading ≡ some g
      → ((c : F) × (cpu_coverage reading.processes reading.cpu.utilization_pct ≡ some c)
          × (f.lt c min_coverage ≡ false))
        × LeadsCpu (sort_by by_cpu (group_by_name reading.processes)) g
        × All (λ h. f.total_le h.cpu_percent g.cpu_percent ≡ true) (group_by_name reading.processes)
  unfolding cpu_leader
  cpu_leader-dominates total e =
      elim (Option-cases (cpu_coverage reading.processes reading.cpu.utilization_pct)) [
        | inl n ↦ absurd (cc (rw (n, cpu_leader) at e))
        | inr (c, k) ↦
            let (covered, named) = enough c (rw (k, cpu_leader) at e) in
            let leads = lead_cpu-LeadsCpu _ g named in
            ((c, k, covered), leads, All_of_sort_by by_cpu _ groups (below leads))
      ]
    where
      enough :
          (c : F)
          → (if f.lt c min_coverage then none else lead_cpu (sort_by by_cpu groups)) ≡ some g
          → (f.lt c min_coverage ≡ false) × (lead_cpu (sort_by by_cpu groups) ≡ some g)
      enough c e = ground arith

      itself : f.total_le g.cpu_percent g.cpu_percent ≡ true
      itself = ground (arith, total.total_le_total g.cpu_percent g.cpu_percent)

      below :
          LeadsCpu (sort_by by_cpu groups) g
          → All (λ h. f.total_le h.cpu_percent g.cpu_percent ≡ true) (sort_by by_cpu groups)
      below leads =
          let sorted : IsSortedBy by_cpu (g ∷ leads.rest) = subst (IsSortedBy by_cpu) leads.first (
            sort_by-IsSortedBy by_cpu (λ a b. total.total_le_total b.cpu_percent a.cpu_percent)
              (λ a b c p q. total.total_le_trans c.cpu_percent b.cpu_percent a.cpu_percent q p)
              groups) in
          subst (All (λ h. f.total_le h.cpu_percent g.cpu_percent ≡ true)) (sym leads.first)
            (itself, sorted.0)
