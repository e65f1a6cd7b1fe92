-- ===== src/Core/Spec/Examples.antt =====
-- Processors looked up in small databases.
use loadbear.Prelude.{
  ◌≡◌, refl, none, some, show_ℕ, [], ◌∷◌, ℕ, ◌/◌, List, Option, chars, contains, if◌then◌else◌,
}
use loadbear.Float.Fixed.{Fixed, nan, num, fixed_float}
use loadbear.Core.Spec.{SpecDb, SpecMatch, label, lookup, resolve}
use loadbear.Core.Spec.Base.{base_from_brand}
use loadbear.Core.Samples.{amd_key, slow_part, banded}

abbrev only : SpecDb Fixed
only = record { entries = slow_part ∷ [] }

abbrev exact_match : SpecMatch Fixed
exact_match = record { spec = slow_part; candidates = 1 }

lookup-first : lookup banded amd_key ≡ some slow_part
unfolding lookup
lookup-first = refl

resolve-one_match : resolve only amd_key 16 ≡ some exact_match
unfolding resolve
resolve-one_match = refl

resolve-no_threads : resolve only amd_key 12 ≡ some exact_match
unfolding resolve
resolve-no_threads = refl

label-merged :
    label (record exact_match { candidates = 2 })
    ≡ "8 cores / 16 threads, one of 2 models sharing this processor id"
unfolding label show_ℕ
label-merged = refl

-- A number that is parsed as 2.4, or 2400, or not.
abbrev parsed : List ℕ → Option Fixed
parsed s = if contains (chars "2.4") s then some (num 2400 0) else none

abbrev rounded : Fixed → ℕ
rounded nan = 0
rounded (num p n) = p / 1000

base_from_brand-ghz : base_from_brand parsed rounded (chars "Some CPU @ 2.40GHz") ≡ some 2400
unfolding base_from_brand
base_from_brand-ghz = refl

base_from_brand-none :
    base_from_brand parsed rounded (chars "AMD Ryzen 7 4980U with Radeon Graphics") ≡ none
unfolding base_from_brand
base_from_brand-none = refl
