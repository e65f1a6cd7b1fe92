-- ===== src/Sensors/Power/Ticks.antt =====
-- The difference of two readings against the energy that was counted, and what a reading of power is.
use mathlib.Core.Path.{subst}
use mathlib.Core.Option.{some-injective}
use loadbear.Prelude.{
  ℕ, ◌+◌, ◌-◌, ◌%◌, ◌<◌, ◌≡◌, refl, inl, inr, true, false, Option, none, some, arith, Bool-cases,
  leb, if◌then◌else◌,
}
use loadbear.Float.{Float}
use loadbear.Sensors.Power.{
  PackagePower, counter_modulus, ticks, watts_of, is_plausible, rate, read,
}

-- However often the counter of 32 bits has wrapped before, and wherever it stands, the difference is
-- the number of counts, as long as they are fewer than 2^32.
pub ticks-wrap :
    (total counts : ℕ)
    → counts < counter_modulus
    → ticks ((total + counts) % counter_modulus) (total % counter_modulus) ≡ counts
ticks-wrap total counts h = ground arith

module _ {D F : Type 0} ⦃d : Float D⦄ ⦃f : Float F⦄ (as_f32 : D → F) where
  -- Of two successive readings of a counter that ran on by fewer than 2^32 counts, with time between
  -- them, the second gives the energy of those counts over that time where this is plausible, and
  -- nothing where it is not.
  pub read-read :
      (p : PackagePower D) (total counts then_ms elapsed_ms : ℕ)
      → counts < counter_modulus
      → 0 < elapsed_ms
      → (read as_f32
          (read as_f32 p (some total) then_ms).0
          (some (total + counts))
          (then_ms + elapsed_ms)).1
        ≡ (let watts = watts_of as_f32 p.joules_per_count counts elapsed_ms in
            if is_plausible watts then some watts else none)
  unfolding read rate
  read-read p total counts then_ms elapsed_ms h late =
      let e : leb (then_ms + elapsed_ms) then_ms ≡ false = ground arith in
      let t : then_ms + elapsed_ms - then_ms ≡ elapsed_ms = omega arith in
      rw (e, t, ticks-wrap total counts h)

  plausible-some :
      (x w : F) → (if is_plausible x then some x else none) ≡ some w → is_plausible w ≡ true
  plausible-some x w e = elim (Bool-cases (is_plausible x)) [
    | inl p ↦
        let e' : x ≡ w = some-injective _ _ (rw p at e) in subst (λ y. is_plausible y ≡ true) e' p
    | inr p ↦ absurd (cc (rw p at e))
  ]

  rate-some :
      (joules : D) (counter now_ms : ℕ) (o : Option (ℕ × ℕ)) (w : F)
      → rate as_f32 joules counter now_ms o ≡ some w
      → (is_plausible w ≡ true) × ((q : ℕ × ℕ) × (o ≡ some q) × (q.1 < now_ms))
  unfolding rate
  rate-some joules counter now_ms none w e = cc
  rate-some joules counter now_ms (some (c, ms)) w e = elim (Bool-cases (leb now_ms ms)) [
    | inl t ↦ absurd (cc (rw t at e))
    | inr t ↦ (
      plausible-some (watts_of as_f32 joules (ticks counter c) (now_ms - ms)) w (rw t at e),
      ((c, ms), refl, ground arith),
    )
  ]

  -- A figure is returned only where an earlier reading is remembered, from a strictly earlier
  -- time, and only where the figure is plausible.
  pub read-some :
      (p : PackagePower D) (register : Option ℕ) (now_ms : ℕ) (watts : F)
      → (read as_f32 p register now_ms).1 ≡ some watts
      → (is_plausible watts ≡ true) × ((q : ℕ × ℕ) × (p.previous ≡ some q) × (q.1 < now_ms))
  unfolding read
  read-some p none now_ms watts e = cc
  read-some p (some raw) now_ms watts e =
      rate-some p.joules_per_count (raw % counter_modulus) now_ms p.previous watts e
