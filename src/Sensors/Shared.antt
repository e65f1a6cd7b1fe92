-- ===== src/Sensors/Shared.antt =====
-- crates/loadbear-sensors-windows/src/shared.rs: the record in shared memory, and what a reader takes
-- from it. Labels are bytes; `String::from_utf8_lossy` is a parameter.
pub mod Label
pub mod Samples
mod Examples
use loadbear.Prelude.{
  ℕ, zero, suc, ◌-◌, min, Bool, true, false, ◌&&◌, String, Option, none, some, List, [], ◌∷◌, ltb,
  leb, ◌==◌, if◌then◌else◌,
}
use loadbear.Float.{Float}

abbrev pub layout_version : ℕ
layout_version = 4

abbrev pub helper_revision : ℕ
helper_revision = 5

abbrev pub max_zones : ℕ
max_zones = 16

abbrev pub stale_after_ms : ℕ
stale_after_ms = 15000

-- `zones` and `zone_labels` have 16 entries, and each label 8 bytes.
pub record SharedTemperature (F : Type 0) : Type 0 where
  pub version : ℕ
  pub revision : ℕ
  pub sequence : ℕ
  pub timestamp_ms : ℕ
  pub package_c : F
  pub package_watts : F
  pub tjmax_c : F
  pub zone_count : ℕ
  pub zones : List F
  pub zone_labels : List (List ℕ)

-- The bytes of a label up to the first 0.
pub label_bytes : List ℕ → List ℕ
label_bytes [] = []
label_bytes (b ∷ bs) = if b == 0 then [] else b ∷ label_bytes bs

-- The loop over the bytes of a label, into a slot with so many bytes left for the label and the one
-- that stays 0.
fill : ℕ → List ℕ → List ℕ
fill zero bs = 0 ∷ []
fill (suc n) [] = 0 ∷ fill n []
fill (suc n) (b ∷ bs) = b ∷ fill n bs

-- The slot after `set_label`, from the bytes of the label.
pub set_label : List ℕ → List ℕ
unfolding fill
set_label = fill 7

module _ {F : Type 0} ⦃f : Float F⦄ where
  -- A number, where it is none of the `NaN` that stand for no reading.
  abbrev pub real : F → Option F
  real x = if f.is_nan x then none else some x

  abbrev pub watts : SharedTemperature F → Option F
  watts t = real t.package_watts

  abbrev pub tjmax : SharedTemperature F → Option F
  tjmax t = real t.tjmax_c

  abbrev pub package_temp : SharedTemperature F → Option F
  package_temp t = real t.package_c

  -- The labelled zones of the first so many slots.
  unfoldable pub present : (List ℕ → String) → ℕ → List F → List (List ℕ) → List (String × F)
  present decode (suc n) (z ∷ zs) (l ∷ ls) =
      let rest = present decode n zs ls in
      if f.is_nan z then rest else (decode (label_bytes l), z) ∷ rest
  present decode _ _ _ = []

  unfoldable pub zone_list : (List ℕ → String) → SharedTemperature F → List (String × F)
  unfolding present
  zone_list decode t = present decode (min t.zone_count max_zones) t.zones t.zone_labels

module _ {F : Type 0} where
  abbrev pub helper_is_current : SharedTemperature F → Bool
  helper_is_current t = leb helper_revision t.revision

  abbrev pub is_fresh : SharedTemperature F → ℕ → Bool
  is_fresh t now_ms = t.version == layout_version && leb (now_ms - t.timestamp_ms) stale_after_ms
