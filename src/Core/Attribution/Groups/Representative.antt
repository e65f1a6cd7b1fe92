-- ===== src/Core/Attribution/Groups/Representative.antt =====
-- The representative of a group against the sizes of its members.
use loadbear.Prelude.{◌+◌, ◌/◌, ◌^◌, ◌<◌, ◌≡◌, true, [], ◌∷◌, map, arith}
use loadbear.Float.{Float}
use loadbear.Core.Types.{ProcessReading}
use loadbear.Core.Attribution.Groups.{
  Lowercase, new_group, join, same_name, add_process, group_by_name,
}

module _ {F : Type 0} ⦃f : Float F⦄ ⦃l : Lowercase⦄ where
  -- A process takes over from a larger one: of three processes of one name whose memory sums to
  -- less than 2^64, the last is the representative where it is above the mean of the three, also
  -- where the first is larger.
  pub representative_not_largest :
      (x y z : ProcessReading F)
      → same_name x.name y.name ≡ true
      → same_name x.name z.name ≡ true
      → x.working_set_bytes + y.working_set_bytes + z.working_set_bytes < 2 ^ 64
      → (x.working_set_bytes + y.working_set_bytes + z.working_set_bytes) / 3 < z.working_set_bytes
      → z.working_set_bytes < x.working_set_bytes
      → map (λ g. g.representative_pid) (group_by_name (x ∷ y ∷ z ∷ [])) ≡ z.pid ∷ []
  unfolding group_by_name add_process join new_group
  representative_not_largest x y z p q fits above larger = rw p (rw q (ground arith))
