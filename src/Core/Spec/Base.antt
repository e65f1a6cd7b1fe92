-- ===== src/Core/Spec/Base.antt =====
-- crates/loadbear-core/src/spec.rs: the base clock as the machine itself reports it. The parsing of a
-- number and its rounding to a `u32` are parameters; texts are code points.
use loadbear.Prelude.{
  ℕ, ◌+◌, ◌-◌, ◌≤◌, ◌≡◌, Bool, ◌&&◌, ◌||◌, Option, none, some, List, [], ◌∷◌, map, leb, ◌==◌,
  if◌then◌else◌, ◌>>=◌, chars, after_find, before, contains, trim, take_while, is_digit, arith,
}
use loadbear.Float.{Float}

abbrev pub is_plausible_mhz : ℕ → Bool
is_plausible_mhz mhz = leb 400 mhz && leb mhz 6000

abbrev pub base_agreement_mhz : ℕ
base_agreement_mhz = 50

-- `u32::abs_diff`
abbrev pub abs_diff : ℕ → ℕ → ℕ
abs_diff a b = a - b + (b - a)

-- `to_ascii_lowercase`
abbrev pub to_ascii_lowercase : List ℕ → List ℕ
to_ascii_lowercase = map (λ c. if leb b'A' c && leb c b'Z' then c + 32 else c)

abbrev is_number_char : ℕ → Bool
is_number_char c = is_digit c || c == b'.'

-- The frequency in MHz, by the unit that the text names.
in_mhz : {D : Type 0} → ⦃d : Float D⦄ → (D → ℕ) → List ℕ → D → Option ℕ
in_mhz ⦃d⦄ round_u32 lower value =
    if contains (chars "ghz") lower
    then some (round_u32 (d.mul value (d.decimal 10000 1)))
    else if contains (chars "mhz") lower
    then some (round_u32 value)
    else none

unfoldable pub base_from_brand :
    {D : Type 0} → ⦃d : Float D⦄ → (List ℕ → Option D) → (D → ℕ) → List ℕ → Option ℕ
unfolding in_mhz
base_from_brand parse round_u32 brand = do
  part ← after_find (b'@' ∷ []) brand
  let tail = trim (before (b'@' ∷ []) part)
  value ← parse (take_while is_number_char tail)
  mhz ← in_mhz round_u32 (to_ascii_lowercase tail) value
  if is_plausible_mhz mhz then some mhz else none

agreed : ℕ → Option ℕ → Option ℕ
agreed os_nominal_mhz none = some os_nominal_mhz
agreed os_nominal_mhz (some from_brand) =
    if leb (abs_diff os_nominal_mhz from_brand) base_agreement_mhz
    then some os_nominal_mhz
    else none

-- From what `base_from_brand` gives for the brand string, where there is one.
unfoldable pub reported_base_mhz : ℕ → Option ℕ → Option ℕ
unfolding agreed
reported_base_mhz os_nominal_mhz from_brand =
    if is_plausible_mhz os_nominal_mhz then agreed os_nominal_mhz from_brand else none

-- The two figures do not contradict each other.
abbrev pub Agree : ℕ → Option ℕ → Type 0
Agree os none = Unit
Agree os (some from_brand) =
    (os ≤ from_brand + base_agreement_mhz) × (from_brand ≤ os + base_agreement_mhz)

-- A base clock that is reported is the figure of the system itself, between 400 and 6000 MHz and within
-- 50 MHz of the one in the brand string, where that states one; and where these hold it is reported.
pub reported_base_mhz_iff :
    (os mhz : ℕ) (from_brand : Option ℕ)
    → (reported_base_mhz os from_brand ≡ some mhz
        → (mhz ≡ os) × (400 ≤ os) × (os ≤ 6000) × Agree os from_brand)
      × (400 ≤ os → os ≤ 6000 → Agree os from_brand → reported_base_mhz os from_brand ≡ some os)
unfolding reported_base_mhz agreed
reported_base_mhz_iff os mhz none = ground arith
reported_base_mhz_iff os mhz (some from_brand) = ground arith
