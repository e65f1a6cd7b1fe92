-- ===== src/Sensors/Counters/Stall.antt =====
-- The levels of the stall signal.
use loadbear.Prelude.{
  AllSome, ℕ, ◌≡◌, inl, inr, false, arith, Bool-cases, Option, none, some, is_some, Bool, refl,
}
use loadbear.Float.{Float, zero_float}
use loadbear.Float.Laws.{IsOrdered, IsCast, IsWithin, clamp-IsWithin, cast-IsWithin}
use loadbear.Sensors.Counters.{CounterSample, level, to_stall}

-- A level between 0 and 1, or NaN.
abbrev pub IsLevel : {F : Type 0} → ⦃f : Float F⦄ → F → Type 0
IsLevel ⦃f⦄ x = IsWithin zero_float (f.decimal 10 1) x

abbrev pub is_above_zero : {D : Type 0} → ⦃d : Float D⦄ → Option D → Bool
is_above_zero none = false
is_above_zero ⦃d⦄ (some p) = d.lt zero_float p

module _ {D F : Type 0} ⦃d : Float D⦄ ⦃f : Float F⦄ (as_f32 : D → F) where
  level-IsLevel : IsOrdered D → IsCast D F as_f32 → (x y : D) → IsLevel (level as_f32 x y)
  level-IsLevel laws cast x y = cast-IsWithin as_f32 cast 0 1 _ (omega arith) (omega arith) (
      clamp-IsWithin laws (d.div x y) zero_float (d.decimal 10 1)
        (laws.decimal_mono 0 10 1 (omega arith)))

  -- Every level of the stall signal is NaN or lies between 0 and 1, whatever the counters say; the disk
  -- has a level exactly where its saturation point is known and above zero.
  pub to_stall-levels :
      IsOrdered D
      → IsCast D F as_f32
      → (s : CounterSample D) (logical_cpus : ℕ) (disk_saturation : Option D)
      → IsLevel (to_stall as_f32 s logical_cpus disk_saturation).cpu
        × IsLevel (to_stall as_f32 s logical_cpus disk_saturation).memory
        × AllSome IsLevel (to_stall as_f32 s logical_cpus disk_saturation).io
        × (is_some (to_stall as_f32 s logical_cpus disk_saturation).io
            ≡ is_above_zero disk_saturation)
  unfolding to_stall
  to_stall-levels laws cast s logical_cpus none =
      (level-IsLevel laws cast _ _, level-IsLevel laws cast _ _, tt, refl)
  to_stall-levels laws cast s logical_cpus (some p) = elim (Bool-cases (d.lt zero_float p)) [
    | inl e ↦ rw e (
      level-IsLevel laws cast _ _,
      level-IsLevel laws cast _ _,
      level-IsLevel laws cast _ _,
      refl,
    )
    | inr e ↦ rw e (level-IsLevel laws cast _ _, level-IsLevel laws cast _ _, tt, refl)
  ]
