-- ===== src/Core/Attribution/Groups/Examples.antt =====
-- Processes put into groups.
use loadbear.Prelude.{ℕ, String, ◌≡◌, refl, [], ◌∷◌, List, map, arith}
use loadbear.Float.Fixed.{Fixed, fixed_float}
use loadbear.Core.Types.{ProcessReading}
use loadbear.Core.Attribution.Groups.{new_group, join, add_process, group_by_name}
use loadbear.Core.Attribution.Groups.Members.{IsPartition}
use loadbear.Core.Attribution.Groups.Partition.{group_by_name-IsPartition}
use loadbear.Core.Samples.{lower, process_of}

-- The second of the browser's processes comes last.
abbrev three : List (ProcessReading Fixed)
three =
    process_of 100 "chrome" 20 400
    ∷ process_of 200 "code" 5 900
    ∷ process_of 300 "chrome" 10 100
    ∷ []

group_by_name-three :
    map {B = String × ℕ × ℕ × ℕ}
      (λ g. (g.name, g.count, g.working_set_bytes, g.representative_pid))
      (group_by_name three)
    ≡ ("chrome", 2, 500, 100) ∷ ("code", 1, 900, 200) ∷ []
unfolding group_by_name add_process join new_group
group_by_name-three = refl

group_by_name-IsPartition_example : IsPartition three (group_by_name three)
group_by_name-IsPartition_example =
    group_by_name-IsPartition three (omega arith, (omega arith, (omega arith, tt)))
