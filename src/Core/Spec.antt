-- ===== src/Core/Spec.antt =====
-- crates/loadbear-core/src/spec.rs: the specification database and the processors it can tell apart.
-- Loading the database compiled into the binary is the work of `serde_json` and is left out.
pub mod Base
pub mod Merge
pub mod Resolve
mod Examples
use loadbear.Prelude.{
  ℕ, ◌-◌, min, max, Bool, true, false, ◌&&◌, String, Option, none, some, List, [], ◌∷◌, map, foldl,
  length, filter, filter_map, find, ◌==◌, if◌then◌else◌, unwrap_or, show_ℕ, concat,
}
use loadbear.Float.{Float}

pub data Vendor : Type 0 where
  intel amd other : Vendor

abbrev pub vendor_eq : Vendor → Vendor → Bool
vendor_eq Vendor.intel Vendor.intel = true
vendor_eq Vendor.amd Vendor.amd = true
vendor_eq Vendor.other Vendor.other = true
vendor_eq _ _ = false

pub record CpuKey : Type 0 where
  pub vendor : Vendor
  pub family : ℕ
  pub model : ℕ
  pub stepping : ℕ

pub record CpuSpec (F : Type 0) : Type 0 where
  pub vendor : Vendor
  pub family : ℕ
  pub model : ℕ
  pub stepping : ℕ
  pub name : String
  pub base_mhz : ℕ
  pub boost_mhz : Option ℕ
  pub tdp_watts : ℕ
  pub ctdp_min_watts : Option ℕ
  pub ctdp_max_watts : Option ℕ
  pub tjmax_c : Option F
  pub cores : ℕ
  pub threads : ℕ
  pub source : String

pub record SpecMatch (F : Type 0) : Type 0 where
  pub spec : CpuSpec F
  pub candidates : ℕ

pub record SpecDb (F : Type 0) : Type 0 where
  pub entries : List (CpuSpec F)

abbrev pub key_eq : CpuKey → CpuKey → Bool
key_eq a b =
    vendor_eq a.vendor b.vendor
    && a.family == b.family
    && a.model == b.model
    && a.stepping == b.stepping

-- `Iterator::min` and `Iterator::max` of a list of numbers
abbrev pub minimum : List ℕ → Option ℕ
minimum [] = none
minimum (x ∷ xs) = some (foldl min x xs)

abbrev pub maximum : List ℕ → Option ℕ
maximum [] = none
maximum (x ∷ xs) = some (foldl max x xs)

module _ {F : Type 0} where
  abbrev pub key : CpuSpec F → CpuKey
  key s = record { vendor = s.vendor; family = s.family; model = s.model; stepping = s.stepping }

  unfoldable pub is_exact : SpecMatch F → Bool
  is_exact m = m.candidates == 1

  unfoldable pub label : SpecMatch F → String
  unfolding is_exact
  label m =
      if is_exact m
      then m.spec.name
      else concat (
          show_ℕ m.spec.cores
          ∷ " cores / "
          ∷ show_ℕ m.spec.threads
          ∷ " threads, one of "
          ∷ show_ℕ m.candidates
          ∷ " models sharing this processor id"
          ∷ [])

  unfoldable pub lookup : SpecDb F → CpuKey → Option (CpuSpec F)
  lookup db k = find (λ s. key_eq (key s) k) db.entries

  -- The entries that a processor could be, whatever its stepping.
  abbrev pub same_part : CpuKey → CpuSpec F → Bool
  same_part k s = vendor_eq s.vendor k.vendor && s.family == k.family && s.model == k.model

  -- `by_key`, or the entries among it with this number of threads where there are any
  unfoldable pub narrow : ℕ → List (CpuSpec F) → List (CpuSpec F)
  narrow threads by_key = elim (filter (λ s. s.threads == threads) by_key) [
    | [] ↦ by_key
    | s ∷ ss ↦ s ∷ ss
  ]

  unfoldable pub candidates : SpecDb F → CpuKey → ℕ → List (CpuSpec F)
  unfolding narrow
  candidates db k threads = narrow threads (filter (same_part k) db.entries)

module _ {F : Type 0} ⦃f : Float F⦄ where
  -- The fold over the junction limits.
  abbrev pub highest : Option F → F → Option F
  highest none v = some v
  highest (some a) v = some (f.maximum a v)

  -- `conservative` of the candidates `first ∷ rest`; it panics on none, and is never given none.
  unfoldable pub conservative : CpuSpec F → List (CpuSpec F) → CpuSpec F
  conservative first [] = first
  conservative first (second ∷ rest) =
      let all : List (CpuSpec F) = first ∷ second ∷ rest in
      record first {
        base_mhz = unwrap_or (minimum (map (λ s. s.base_mhz) all)) 0;
        boost_mhz = maximum (filter_map (λ s. s.boost_mhz) all);
        tdp_watts = unwrap_or (minimum (map (λ s. s.tdp_watts) all)) 0;
        ctdp_min_watts = minimum (filter_map (λ s. s.ctdp_min_watts) all);
        ctdp_max_watts = maximum (filter_map (λ s. s.ctdp_max_watts) all);
        tjmax_c = foldl highest none (filter_map (λ s. s.tjmax_c) all);
        name = concat (first.name ∷ " and " ∷ show_ℕ (length all - 1) ∷ " similar" ∷ []);
      }

  -- The match for a list of candidates, which has an entry unless no entry has the key.
  unfoldable pub match_of : List (CpuSpec F) → Option (SpecMatch F)
  unfolding conservative
  match_of [] = none
  match_of (s ∷ ss) = some (record { spec = conservative s ss; candidates = length (s ∷ ss) })

  unfoldable pub resolve : SpecDb F → CpuKey → ℕ → Option (SpecMatch F)
  unfolding match_of candidates
  resolve db k threads = match_of (candidates db k threads)
