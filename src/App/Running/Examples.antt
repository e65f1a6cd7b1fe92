-- ===== src/App/Running/Examples.antt =====
-- A list with Docker in it.
use loadbear.Prelude.{◌≡◌, refl, none, [], ◌∷◌, map, sort_by}
use loadbear.Float.Fixed.{Fixed, fixed_float}
use loadbear.Core.Types.{Reading, ContainerReading}
use loadbear.Core.Tier.{untroubled}
use loadbear.Core.Attribution.Groups.{group_by_name, add_process, new_group, label}
use loadbear.Core.Samples.{lower, idle_cpu, process_of, reading_of, whole}
use loadbear.App.Running.{running_list, is_docker_name}

abbrev database : ContainerReading Fixed
database = record {
  id = "ab12";
  name = "postgres";
  cpu_percent = whole 3;
  memory_bytes = 400;
  memory_limit_bytes = none;
}

abbrev reading : Reading Fixed
reading =
    record (reading_of idle_cpu (process_of 1 "code" 5 900 ∷ process_of 2 "vmmem" 20 100 ∷ [])) {
      containers = database ∷ [];
    }

names-reading :
    map (λ c. c.name) (running_list {D = Fixed} reading untroubled)
    ≡ "Docker" ∷ "postgres" ∷ "code" ∷ []
unfolding running_list sort_by group_by_name add_process new_group is_docker_name label
names-reading = refl
