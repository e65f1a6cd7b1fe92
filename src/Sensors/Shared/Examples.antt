-- ===== src/Sensors/Shared/Examples.antt =====
-- Labels and zones of small records.
use loadbear.Prelude.{ℕ, ◌≡◌, refl, String, List, [], ◌∷◌}
use loadbear.Float.Fixed.{num, fixed_float}
use loadbear.Sensors.Shared.{set_label, fill, present, zone_list}
use loadbear.Sensors.Shared.Samples.{warm}

-- Nine bytes are too many.
abbrev long : List ℕ
long = 80 ∷ 97 ∷ 99 ∷ 107 ∷ 97 ∷ 103 ∷ 101 ∷ 32 ∷ 49 ∷ []

abbrev nameless : List ℕ → String
nameless bytes = "zone"

set_label-long : set_label long ≡ 80 ∷ 97 ∷ 99 ∷ 107 ∷ 97 ∷ 103 ∷ 101 ∷ 0 ∷ []
unfolding set_label fill
set_label-long = refl

zone_list-warm : zone_list nameless warm ≡ ("zone", num 61000 0) ∷ []
unfolding zone_list present
zone_list-warm = refl
