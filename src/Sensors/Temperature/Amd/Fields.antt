-- ===== src/Sensors/Temperature/Amd/Fields.antt =====
-- The registers of an AMD part, from their fields.
use loadbear.Prelude.{
  ℕ, ◌+◌, ◌*◌, ◌^◌, ◌/◌, ◌%◌, ◌<◌, ◌≡◌, refl, ◌||◌, none, some, ◌==◌, if◌then◌else◌, arith, pos,
  sub_ℕ,
}
use loadbear.Sensors.Temperature.Amd.{die_millideg, ccd_millideg}

-- The register of the die: the reading, and below it the bits 20, 19, 18, the bits 17 and 16, and 16 more.
abbrev pub die_register : ℕ → ℕ → ℕ → ℕ → ℕ → ℕ → ℕ
die_register temp bit_20 range_sel bit_18 tj_sel low =
    temp * 2 ^ 21 + bit_20 * 2 ^ 20 + range_sel * 2 ^ 19 + bit_18 * 2 ^ 18 + tj_sel * 2 ^ 16 + low

-- The die temperature is 125 millidegrees for each count of the reading, less 49 degrees where the range
-- bit is set or both bits of the other selector are; no other bit of the register matters. A die of a core
-- complex has a reading exactly where its valid bit is set, always shifted by 49 degrees, and no bit
-- above that one matters.
pub millideg-register :
    (temp bit_20 range_sel bit_18 tj_sel low valid high : ℕ)
    → bit_20 < 2
    → range_sel < 2
    → bit_18 < 2
    → tj_sel < 4
    → low < 2 ^ 16
    → temp < 2 ^ 11
    → valid < 2
    → (die_millideg (die_register temp bit_20 range_sel bit_18 tj_sel low)
        ≡ (if range_sel == 1 || tj_sel == 3 then sub_ℕ (temp * 125) 49000 else pos (temp * 125)))
      × (ccd_millideg (high * 2 ^ 12 + valid * 2 ^ 11 + temp)
          ≡ (if valid == 0 then none else some (sub_ℕ (temp * 125) 49000)))
unfolding die_millideg ccd_millideg
millideg-register temp bit_20 range_sel bit_18 tj_sel low valid high a b c e g h k =
    let r = die_register temp bit_20 range_sel bit_18 tj_sel low in
    let v = high * 2 ^ 12 + valid * 2 ^ 11 + temp in
    let sel : r / 2 ^ 19 % 2 ≡ range_sel = omega arith in
    let tj : r / 2 ^ 16 % 4 ≡ tj_sel = omega arith in
    let whole : r / 2 ^ 21 ≡ temp = omega arith in
    let bit : v / 2 ^ 11 % 2 ≡ valid = omega arith in
    let rest : v % 2 ^ 11 ≡ temp = omega arith in (rw (sel, tj, whole) refl, rw (bit, rest) refl)
