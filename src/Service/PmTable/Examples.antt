-- ===== src/Service/PmTable/Examples.antt =====
-- Tables of a few words.
use loadbear.Prelude.{ℕ, ◌≡◌, refl, true, some, none, [], ◌∷◌, ◌==◌, if◌then◌else◌}
use loadbear.Float.Fixed.{Fixed, num, fixed_float}
use loadbear.Sensors.Temperature.Registers.{ok}
use loadbear.Service.PmTable.{Smu, row, taken, dump}
use loadbear.Service.PmTable.Snapshots.{is_panic, meets_empty, is_panic-dump}

abbrev smaller : Fixed → Fixed → Fixed
smaller a b = if fixed_float.lt b a then b else a

abbrev top : Fixed
top = num 1000000000 0

abbrev bottom : Fixed
bottom = num 0 1000000000

abbrev whole : ℕ → Fixed
whole bits = num bits 0

-- A driver that gives nothing in its third snapshot.
abbrev failing : Smu
failing = record {
  opens = true;
  loads = true;
  resolved = ok (0x370005 ∷ 0 ∷ []);
  at = λ i name input words. if i == 2 then ok [] else ok (9000 ∷ []);
}

is_panic-dump_example : is_panic (dump whole top bottom smaller failing) ≡ meets_empty failing
is_panic-dump_example = is_panic-dump whole top bottom smaller failing

meets_empty-failing : meets_empty failing ≡ true
unfolding taken
meets_empty-failing = refl

-- A value that moved from 9 to 14.
row-moved :
    row top bottom smaller 3 (num 9000 0 ∷ num 14000 0 ∷ num 12000 0 ∷ [])
    ≡ some (record { place = 3; least = num 9000 0; greatest = num 14000 0; last = num 12000 0 })
unfolding row
row-moved = refl

-- One that held still.
row-still : row top bottom smaller 3 (num 9000 0 ∷ num 9000 0 ∷ []) ≡ none
unfolding row
row-still = refl
