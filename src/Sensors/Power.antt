-- ===== src/Sensors/Power.antt =====
-- crates/loadbear-sensors-windows/src/power.rs: package power from an energy counter of 32 bits. What
-- the driver answers for a register is a parameter of each call.
pub mod Ticks
mod Examples
use loadbear.Prelude.{
  ℕ, ◌+◌, ◌-◌, ◌/◌, ◌%◌, ◌^◌, Bool, ◌&&◌, ◌||◌, not, Option, none, some, ltb, leb, ◌==◌,
  if◌then◌else◌,
}
use loadbear.Float.{Float, zero_float}

abbrev pub counter_modulus : ℕ
counter_modulus = 2 ^ 32

pub record PackagePower (D : Type 0) : Type 0 where
  pub joules_per_count : D
  pub previous : Option (ℕ × ℕ)

-- The counts between two readings of the counter.
abbrev pub ticks : ℕ → ℕ → ℕ
ticks counter previous_counter =
    if leb previous_counter counter
    then counter - previous_counter
    else counter + counter_modulus - previous_counter

module _ {D : Type 0} ⦃d : Float D⦄ where
  -- The exponent stands in the bits 12 to 8 of the register.
  pub energy_unit_joules : ℕ → D
  energy_unit_joules raw = d.div (d.decimal 10 1) (d.of_ℕ (2 ^ (raw / 2 ^ 8 % 32)))

  -- The checks of `new`, on the unit that was read.
  with_unit : D → Option (PackagePower D)
  with_unit joules_per_count =
      if d.le joules_per_count zero_float || not (d.is_finite joules_per_count)
      then none
      else some (record { joules_per_count = joules_per_count; previous = none })

  pub new : Option ℕ → Option (PackagePower D)
  unfolding with_unit energy_unit_joules
  new none = none
  new (some raw) = with_unit (energy_unit_joules raw)

module _ {F : Type 0} ⦃f : Float F⦄ where
  abbrev pub implausible_watts : F
  implausible_watts = f.decimal 10000 1

  abbrev pub is_plausible : F → Bool
  is_plausible watts = f.is_finite watts && (f.le zero_float watts && f.lt watts implausible_watts)

-- The two floating point types of the source: `D` for `f64`, `F` for `f32`, and the cast between them.
module _ {D F : Type 0} ⦃d : Float D⦄ ⦃f : Float F⦄ (as_f32 : D → F) where
  -- Power from so many counts in so many milliseconds.
  pub watts_of : D → ℕ → ℕ → F
  watts_of joules_per_count counts elapsed_ms = as_f32 (
      d.div (d.mul (d.of_ℕ counts) joules_per_count)
        (d.div (d.of_ℕ elapsed_ms) (d.decimal 10000 1)))

  -- The part below the exchange of the previous reading. A clock that ran backwards gives nothing.
  pub rate : D → ℕ → ℕ → Option (ℕ × ℕ) → Option F
  unfolding watts_of
  rate joules_per_count counter now_ms none = none
  rate joules_per_count counter now_ms (some (previous_counter, previous_ms)) =
      if leb now_ms previous_ms
      then none
      else let watts =
          watts_of joules_per_count (ticks counter previous_counter) (now_ms - previous_ms) in
        if is_plausible watts then some watts else none

  -- What the register holds, where it can be read, and the time.
  pub read : PackagePower D → Option ℕ → ℕ → PackagePower D × Option F
  unfolding rate
  read p none now_ms = (p, none)
  read p (some raw) now_ms =
      let counter = raw % counter_modulus in
      (
        record p { previous = some (counter, now_ms) },
        rate p.joules_per_count counter now_ms p.previous,
      )
