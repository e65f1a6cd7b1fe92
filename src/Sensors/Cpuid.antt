-- ===== src/Sensors/Cpuid.antt =====
-- crates/loadbear-sensors-windows/src/cpuid.rs: the key of the processor. What the instruction answers, with
-- its extended fields folded in, is a parameter.
use text.Mathlib.Text.{◌==◌ as str_eq}
use loadbear.Prelude.{ℕ, String, Option, some, List, if◌then◌else◌, ◌>>=◌, trim}
use loadbear.Core.Spec.{Vendor, amd, intel, other, CpuKey}

-- The vendor, the family with the model and the stepping, and the brand.
pub record CpuId : Type 0 where
  pub vendor_info : Option String
  pub feature_info : Option (ℕ × ℕ × ℕ)
  pub brand : Option (List ℕ)

abbrev vendor_named : String → Vendor
vendor_named name =
    if str_eq name "GenuineIntel" then intel else if str_eq name "AuthenticAMD" then amd else other

unfoldable pub current_cpu_key : CpuId → Option CpuKey
current_cpu_key cpuid = do
  name ← cpuid.vendor_info
  f ← cpuid.feature_info
  some (record { vendor = vendor_named name; family = f.0; model = f.1; stepping = f.2 })

pub brand_string : CpuId → Option (List ℕ)
brand_string cpuid = do b ← cpuid.brand; some (trim b)
