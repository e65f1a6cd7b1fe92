-- ===== src/App/Modes/Examples.antt =====
-- A page that misspells a mode, and two pixels.
use loadbear.Prelude.{ℕ, ◌≡◌, refl, true, false, none, some, List, [], ◌∷◌}
use loadbear.App.Modes.{expanded_size, taskbar_size, size_for_mode, set_mode}
use loadbear.App.Modes.Shape.{Window, Command, obey_all, Agrees, obey_all-Agrees}

abbrev panel : Window
panel = record { size = expanded_size; on_the_taskbar = false }

abbrev commands : List Command
commands =
    record { mode = "taskbar"; resize = none; has_handle = true }
    ∷ record { mode = "wobbly"; resize = none; has_handle = true }
    ∷ record { mode = "collapsed"; resize = some "busy"; has_handle = true }
    ∷ []

obey_all-commands : obey_all commands panel ≡ record { size = taskbar_size; on_the_taskbar = true }
unfolding obey_all set_mode size_for_mode
obey_all-commands = refl

obey_all-Agrees_example : Agrees (obey_all commands panel)
obey_all-Agrees_example = obey_all-Agrees commands panel (refl, refl)

abbrev pixels : List ℕ
pixels = 255 ∷ 128 ∷ 0 ∷ 7 ∷ 9 ∷ []
