-- ===== src/App/Modes/Shape.antt =====
-- The flag of the strip, and the shape that the window has.
use mathlib.Core.Path.{subst}
use text.Mathlib.Text.{◌==◌ as str_eq}
use text.Mathlib.TextEquality.{eq_iff}
use loadbear.Prelude.{
  ℕ, ◌≡◌, refl, inl, inr, Bool, true, ◌&&◌, ◌||◌, foldl, concat, sym, ◌∙◌, String, Option, none,
  some, List, [], ◌∷◌, arith, ◌==◌, Bool-cases, Option-cases,
}
use loadbear.App.Modes.{
  ModeSet, WindowCall, set_size, raise_to_the_front, expanded_size, collapsed_size, taskbar_size,
  size_for_mode, resized, set_mode,
}

-- A window: the size that it was given last, and the flag of the program.
pub record Window : Type 0 where
  pub size : ℕ × ℕ
  pub on_the_taskbar : Bool

-- A command of the page: the mode, the error of the resizing if any, and whether there is a handle.
pub record Command : Type 0 where
  pub mode : String
  pub resize : Option String
  pub has_handle : Bool

-- The size of a window after a call, which fails with this error if any. Only a resizing can fail.
abbrev called : Option String → ℕ × ℕ → WindowCall → ℕ × ℕ
called (some e) size (set_size new) = size
called none size (set_size new) = new
called resize size raise_to_the_front = size

-- The window after the calls of `set_mode`, with the flag that it left.
abbrev after_calls : Option String → ℕ × ℕ → ModeSet → Window
after_calls resize size r = record {
  size = foldl (called resize) size r.calls;
  on_the_taskbar = r.on_the_taskbar;
}

abbrev obey : Command → Window → Window
obey c w = after_calls c.resize w.size (set_mode w.on_the_taskbar c.resize c.has_handle c.mode)

unfoldable pub obey_all : List Command → Window → Window
obey_all [] w = w
obey_all (c ∷ cs) w = obey_all cs (obey c w)

abbrev is_strip : ℕ × ℕ → Bool
is_strip (width, height) = width == 360 && height == 48

-- The size is one of the three.
abbrev is_shape : ℕ × ℕ → Bool
is_shape (width, height) =
    width == 900 && (height == 588 || height == 124) || is_strip (width, height)

-- The window has one of the three shapes, and the flag says whether it is the strip.
abbrev pub Agrees : Window → Type 0
Agrees w = (w.on_the_taskbar ≡ is_strip w.size) × (is_shape w.size ≡ true)

module _ (was : Bool) (resize : Option String) (has_handle : Bool) (mode : String) where
  set_mode-known :
      (size : ℕ × ℕ)
      → size_for_mode mode ≡ some size
      → set_mode was resize has_handle mode ≡ resized was has_handle mode size resize
  unfolding set_mode
  set_mode-known size e = rw (e, set_mode) refl

  set_mode-unknown :
      size_for_mode mode ≡ none
      → set_mode was resize has_handle mode ≡ record {
        error = some (concat ("no such mode: " ∷ mode ∷ []));
        calls = [];
        on_the_taskbar = was;
      }
  unfolding set_mode
  set_mode-unknown e = rw (e, set_mode) refl

-- Only the mode of the strip gives its shape.
strip_mode :
    (mode : String) (size : ℕ × ℕ)
    → size_for_mode mode ≡ some size
    → (str_eq mode "taskbar" ≡ is_strip size) × (is_shape size ≡ true)
unfolding size_for_mode
strip_mode mode size h = elim (Bool-cases (str_eq mode "expanded")) [
  | inl e ↦
      let same : expanded_size ≡ size = ground arith in
      rw ((eq_iff mode "expanded").0 e, ← same) (refl, refl)
  | inr e ↦ elim (Bool-cases (str_eq mode "collapsed")) [
    | inl k ↦
        let same : collapsed_size ≡ size = ground arith in
        rw ((eq_iff mode "collapsed").0 k, ← same) (refl, refl)
    | inr k ↦ elim (Bool-cases (str_eq mode "taskbar")) [
      | inl t ↦ let same : taskbar_size ≡ size = ground arith in rw (t, ← same) (refl, refl)
      | inr t ↦ absurd (ground arith)
    ]
  ]
]

resized-Agrees :
    (w : Window) (has_handle : Bool) (mode : String) (size : ℕ × ℕ) (resize : Option String)
    → size_for_mode mode ≡ some size
    → Agrees w
    → Agrees (after_calls resize w.size (resized w.on_the_taskbar has_handle mode size resize))
unfolding resized
resized-Agrees w has_handle mode size (some e) known h = h
resized-Agrees w has_handle mode size none known h =
    let strip = strip_mode mode size known in
    elim (Bool-cases (str_eq mode "taskbar")) [
      | inr t ↦ rw t (sym t ∙ strip.0, strip.1)
      | inl t ↦ elim (Bool-cases has_handle) [
        | inl b ↦ rw (t, b) (sym t ∙ strip.0, strip.1)
        | inr b ↦ rw (t, b) (sym t ∙ strip.0, strip.1)
      ]
    ]

obey-Agrees : (c : Command) (w : Window) → Agrees w → Agrees (obey c w)
obey-Agrees c w h =
    let P = λ (r : ModeSet). Agrees (after_calls c.resize w.size r) in
    elim (Option-cases (size_for_mode c.mode)) [
      | inl e ↦ subst P (sym (set_mode-unknown w.on_the_taskbar c.resize c.has_handle c.mode e)) h
      | inr (size, e) ↦
          subst P (sym (set_mode-known w.on_the_taskbar c.resize c.has_handle c.mode size e))
            (resized-Agrees w c.has_handle c.mode size c.resize e h)
    ]

-- A window of one of the three shapes has one of them after any commands, failed ones and those of no known
-- mode included, as the calls of `set_mode` leave it; and the flag says whether it is the strip, where it did
-- so before.
pub obey_all-Agrees : (cs : List Command) (w : Window) → Agrees w → Agrees (obey_all cs w)
unfolding obey_all
obey_all-Agrees [] w h = h
obey_all-Agrees (c ∷ cs) w h = obey_all-Agrees cs (obey c w) (obey-Agrees c w h)
