-- ===== src/Sensors/ServiceControl/Order.antt =====
-- The order of the steps that install the helper.
use loadbear.Prelude.{Bool, String, Option, none, some, List, [], ◌∷◌}
use loadbear.Prelude.Calls.{Result, ok}
use loadbear.Prelude.Calls
use loadbear.Sensors.ServiceControl.Removal.{Removal}
use loadbear.Sensors.ServiceControl.{Call, executable_missing, create_dir_all, copy, Controlling}

-- The copy, from the directory and from whether it succeeds.
abbrev copying : String → String → Option String → Bool → Controlling (Unit {0})
copying source exe dir copies =
    let made : List Call = elim dir [ none ↦ [] | some d ↦ create_dir_all d ∷ [] ] in
    Calls.◌>>◌ (made, ok tt)
      (Calls.◌>>◌ (Calls.call (copy source exe copies)) (Calls.guard copies executable_missing))
