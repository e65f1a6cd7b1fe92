-- ===== src/App/Modes.antt =====
-- crates/loadbear-app/src/main.rs: the shapes of the window, the colours of the icons, and the answer to
-- setting up the temperatures. The calls on the window and the decoding of an icon are parameters.
pub mod Shape
pub mod Paint
mod Examples
use loadbear.Prelude.{
  ℕ, ◌*◌, ◌/◌, ◌==◌, Bool, true, false, String, Option, none, some, List, [], ◌∷◌, if◌then◌else◌,
  concat,
}
use text.Mathlib.Text.{◌==◌ as str_eq}
use loadbear.Core.Tier.{Tier}

-- Widths and heights, in logical pixels.
abbrev pub expanded_size : ℕ × ℕ
expanded_size = (900, 588)

abbrev pub collapsed_size : ℕ × ℕ
collapsed_size = (900, 124)

abbrev pub taskbar_size : ℕ × ℕ
taskbar_size = (360, 48)

unfoldable pub size_for_mode : String → Option (ℕ × ℕ)
size_for_mode mode =
    if str_eq mode "expanded"
    then some expanded_size
    else if str_eq mode "collapsed"
    then some collapsed_size
    else if str_eq mode "taskbar"
    then some taskbar_size
    else none

pub data WindowCall : Type 0 where
  set_size : ℕ × ℕ → WindowCall
  raise_to_the_front : WindowCall

-- The result of a command, the calls that it made, and whether the window is now the strip.
pub record ModeSet : Type 0 where
  pub error : Option String
  pub calls : List WindowCall
  pub on_the_taskbar : Bool

-- `set_mode` from a window that is the strip or not, where `resize` gives the error of the resizing, if
-- any, and `has_handle` says whether the window has a handle.
resized : Bool → Bool → String → ℕ × ℕ → Option String → ModeSet
resized was has_handle mode size (some e) = record {
  error = some e;
  calls = set_size size ∷ [];
  on_the_taskbar = was;
}
resized was has_handle mode size none =
    let strip = str_eq mode "taskbar" in
    record {
      error = none;
      calls =
          set_size size
          ∷ (if strip then (if has_handle then raise_to_the_front ∷ [] else []) else []);
      on_the_taskbar = strip;
    }

unfoldable pub set_mode : Bool → Option String → Bool → String → ModeSet
unfolding resized size_for_mode
set_mode was resize has_handle mode = elim (size_for_mode mode) [
  | none ↦ record {
    error = some (concat ("no such mode: " ∷ mode ∷ []));
    calls = [];
    on_the_taskbar = was;
  }
  | some size ↦ resized was has_handle mode size resize
]

-- The body of the loop in `reclaim_the_top`.
abbrev pub reclaims : Bool → Bool → Bool
reclaims on_the_taskbar stay_out =
    if on_the_taskbar then (if stay_out then false else true) else false

abbrev pub tier_rgb : Tier → ℕ × ℕ × ℕ
tier_rgb Tier.easy = (0x3f, 0x9e, 0x6d)
tier_rgb Tier.braced = (0xd2, 0x92, 0x1c)
tier_rgb Tier.strained = (0xdb, 0x53, 0x42)

-- The loop over the pixels, of four bytes each; bytes that do not fill one are left alone.
pub painted : ℕ × ℕ × ℕ → List ℕ → List ℕ
painted (r, g, b) (x ∷ y ∷ z ∷ alpha ∷ rest) =
    x * r / 255 ∷ y * g / 255 ∷ z * b / 255 ∷ alpha ∷ painted (r, g, b) rest
painted rgb rest = rest

-- What the user is told after the elevated setup ended with this code, and whether the temperatures are
-- probed again.
unfoldable pub setup_result : ℕ → Bool × String
setup_result code =
    if code == 0
    then (true, "Temperature enabled.")
    else if code == 2
    then (false, "Setup was declined.")
    else if code == 3
    then (false, "The hardware driver could not be installed.")
    else if code == 4
    then (false, "The background helper could not be registered.")
    else (false, "Setup did not complete.")
