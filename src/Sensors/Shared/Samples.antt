-- ===== src/Sensors/Shared/Samples.antt =====
-- A record for the examples.
use loadbear.Prelude.{[], ◌∷◌}
use loadbear.Float.Fixed.{Fixed, nan, num}
use loadbear.Sensors.Shared.{SharedTemperature}

-- An old helper's record, with two zones of which one has a number.
abbrev pub warm : SharedTemperature Fixed
warm = record {
  version = 3;
  revision = 2;
  sequence = 0;
  timestamp_ms = 1000;
  package_c = num 60000 0;
  package_watts = nan;
  tjmax_c = nan;
  zone_count = 2;
  zones = num 61000 0 ∷ nan ∷ [];
  zone_labels = (84 ∷ 100 ∷ 0 ∷ []) ∷ (67 ∷ 0 ∷ []) ∷ [];
}
