-- ===== src/Core/Attribution/Leaders/Examples.antt =====
-- Leaders named in small readings.
use loadbear.Prelude.{◌≡◌, refl, true, false, none, some, [], ◌∷◌, All, sort_by}
use loadbear.Float.Fixed.{Fixed, fixed_float, Fixed-IsTotal}
use loadbear.Core.Types.{ProcessReading, Reading}
use loadbear.Core.Attribution.Groups.{ProcessGroup, new_group, add_process, group_by_name}
use loadbear.Core.Attribution.Leaders.{
  by_cpu, cpu_coverage, min_coverage, cpu_leader, memory_leader, lead_cpu, lead_memory,
}
use loadbear.Core.Attribution.Leaders.Dominant.{LeadsCpu, cpu_leader-dominates}
use loadbear.Core.Samples.{whole, lower, idle_cpu, reading_of, process_of}

abbrev hog : ProcessReading Fixed
hog = process_of 100 "ollama" 40 8000

abbrev loaded : Reading Fixed
loaded = reading_of idle_cpu (hog ∷ process_of 200 "code" 5 1000 ∷ [])

abbrev hog_group : ProcessGroup Fixed
hog_group = record {
  name = "ollama";
  display = none;
  representative_pid = 100;
  count = 1;
  cpu_percent = whole 40;
  working_set_bytes = 8000;
}

memory_leader-hog : memory_leader loaded ≡ some hog_group
unfolding memory_leader lead_memory group_by_name add_process new_group sort_by
memory_leader-hog = refl

cpu_leader-hog : cpu_leader loaded ≡ some hog_group
unfolding cpu_leader cpu_coverage lead_cpu group_by_name add_process new_group sort_by
cpu_leader-hog = refl

cpu_leader-dominates_example :
    ((c : Fixed) × (cpu_coverage loaded.processes loaded.cpu.utilization_pct ≡ some c)
      × (fixed_float.lt c min_coverage ≡ false))
    × LeadsCpu (sort_by by_cpu (group_by_name loaded.processes)) hog_group
    × All
        (λ h. fixed_float.total_le h.cpu_percent hog_group.cpu_percent ≡ true)
        (group_by_name loaded.processes)
cpu_leader-dominates_example = cpu_leader-dominates loaded hog_group Fixed-IsTotal cpu_leader-hog
