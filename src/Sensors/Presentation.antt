-- ===== src/Sensors/Presentation.antt =====
-- crates/loadbear-sensors-windows/src/presentation.rs: when to stay off the screen, and the raising of a
-- window. What the shell answers is a parameter.
use loadbear.Prelude.{ℕ, Bool, true, false, Option, none, some, List, [], ◌∷◌, ◌==◌, if◌then◌else◌}

-- The states that the program tells apart.
pub data NotificationState : Type 0 where
  busy running_d3d_full_screen presentation_mode app other_state : NotificationState

-- From the state, where the call did not fail.
unfoldable pub should_stay_out_of_the_way : Option NotificationState → Bool
should_stay_out_of_the_way none = false
should_stay_out_of_the_way (some busy) = true
should_stay_out_of_the_way (some running_d3d_full_screen) = true
should_stay_out_of_the_way (some presentation_mode) = true
should_stay_out_of_the_way (some app) = true
should_stay_out_of_the_way (some other_state) = false

-- The windows that are put in front: this one, where there is a handle.
unfoldable pub raise_to_the_front : ℕ → List ℕ
raise_to_the_front hwnd = if hwnd == 0 then [] else hwnd ∷ []
