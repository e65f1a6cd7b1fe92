-- ===== src/Core/Verdict/Conservative.antt =====
-- A match is judged by figures merged from its candidates: which verdicts on the merged figures are
-- verdicts on every candidate, and which are not.
use mathlib.Core.Path.{subst}
use loadbear.Prelude.{
  ℕ, ◌≤◌, ◌<◌, ◌≡◌, sym, ap, ◌∙◌, Bool, true, ◌&&◌, Option, none, some, List, [], ◌∷◌, arith, All,
  All_map, is_some,
}
use loadbear.Float.{Float}
use loadbear.Float.Laws.{IsOrdered, lt_le_trans, le_lt_trans, not-le_of_lt}
use loadbear.Core.Types.{Reading}
use loadbear.Core.Spec.{CpuKey, CpuSpec, SpecDb, SpecMatch, candidates, resolve, conservative}
use loadbear.Core.Spec.Merge.{
  ceiling_watts, floor_watts, conservative-base, conservative-ceiling, conservative-floor,
  conservative-rating,
}
use loadbear.Core.Spec.Resolve.{resolve-some, resolve-spec_eq}
use loadbear.Core.Verdict.{
  VerdictKind, below_base_clock, power_outside_band, power_below_rating, evaluate, under_demand,
}
use loadbear.Core.Verdict.Fires.{count, count-evaluate, fires, above_ceiling, below_floor}

and_parts : (a b : Bool) → a && b ≡ true → (a ≡ true) × (b ≡ true)
and_parts a b h = ground arith

module _ {F : Type 0} ⦃f : Float F⦄ (r : Reading F) where
  -- A verdict of this kind is given for these figures.
  abbrev pub Judges : VerdictKind → CpuSpec F → Type 0
  Judges k s = count k (evaluate r (some s)) ≡ 1

  Judges-of_fires : (k : VerdictKind) (s : CpuSpec F) → fires k r.cpu (some s) ≡ true → Judges k s
  Judges-of_fires k s h = ground (arith, count-evaluate k r (some s))

  fires_of_Judges : (k : VerdictKind) (s : CpuSpec F) → Judges k s → fires k r.cpu (some s) ≡ true
  fires_of_Judges k s h = ground (arith, count-evaluate k r (some s))

  -- What one figure of the merged specification must not exceed for its verdict to carry over.
  clock_carries :
      (m s : CpuSpec F)
      → m.base_mhz ≤ s.base_mhz
      → Judges below_base_clock m
      → Judges below_base_clock s
  clock_carries m s h j =
      Judges-of_fires below_base_clock s (ground (arith, fires_of_Judges below_base_clock m j))

  module _ (laws : IsOrdered F) where
    above_ceiling_carries :
        (m s : CpuSpec F) (w : Option F)
        → ceiling_watts s ≤ ceiling_watts m
        → above_ceiling (some m) w ≡ true
        → above_ceiling (some s) w ≡ true
    above_ceiling_carries m s none h j = j
    above_ceiling_carries m s (some w) h j = le_lt_trans laws _ _ w (laws.of_ℕ_mono _ _ h) j

    below_floor_carries :
        (m s : CpuSpec F) (w : Option F)
        → floor_watts m ≤ floor_watts s
        → below_floor (some m) w ≡ true
        → below_floor (some s) w ≡ true
    below_floor_carries m s none h j = j
    below_floor_carries m s (some w) h j = lt_le_trans laws w _ _ j (laws.of_ℕ_mono _ _ h)

    ceiling_carries :
        (m s : CpuSpec F)
        → ceiling_watts s ≤ ceiling_watts m
        → Judges power_outside_band m
        → Judges power_outside_band s
    ceiling_carries m s h j =
        Judges-of_fires power_outside_band s
          (above_ceiling_carries m s r.cpu.package_watts h (fires_of_Judges power_outside_band m j))

    floor_carries :
        (m s : CpuSpec F)
        → floor_watts m ≤ floor_watts s
        → Judges power_below_rating m
        → Judges power_below_rating s
    floor_carries m s h j =
        let (u, w) =
          and_parts (under_demand r.cpu.utilization_pct) (below_floor (some m) r.cpu.package_watts)
            (fires_of_Judges power_below_rating m j) in
        Judges-of_fires power_below_rating s
          (rw (u, below_floor_carries m s r.cpu.package_watts h w))

module _ {F : Type 0} ⦃f : Float F⦄ (db : SpecDb F) (k : CpuKey) (threads : ℕ) where
  -- What carries over from the merged figures to each candidate.
  carry :
      (P : CpuSpec F → Type 0) (R : CpuSpec F → CpuSpec F → Type 0)
      → ((m s : CpuSpec F) → R m s → P m → P s)
      → (m : SpecMatch F) → resolve db k threads ≡ some m
      → ((s : CpuSpec F) (rest : List (CpuSpec F))
          → candidates db k threads ≡ s ∷ rest
          → All (R (conservative s rest)) (s ∷ rest))
      → P m.spec
      → All P (candidates db k threads)
  carry P R step m e h p =
      let (s, rest, ec, em) = resolve-some db k threads m e in
      let merged : P (conservative s rest) = subst (λ n. P n.spec) em p in
      rw ec (All_map _ _ (λ t q. step (conservative s rest) t q merged) (s ∷ rest) (h s rest ec))

  -- When the clock is below the merged base clock of a match, it is below that of every candidate:
  -- the verdict holds whichever of the products the processor is.
  pub clock_verdict_conservative :
      (r : Reading F) (m : SpecMatch F)
      → resolve db k threads ≡ some m
      → Judges r below_base_clock m.spec
      → All (Judges r below_base_clock) (candidates db k threads)
  clock_verdict_conservative r m e =
      carry _ (λ t s. t.base_mhz ≤ s.base_mhz) (clock_carries r) m e
        (λ s rest _. conservative-base s rest)

  module _ (laws : IsOrdered F) (r : Reading F) (m : SpecMatch F)
      (found : resolve db k threads ≡ some m) where
    -- With ordered comparisons, where every candidate publishes the upper end of its power band, a
    -- verdict that the power is above the merged band is one on every candidate.
    pub ceiling_verdict_conservative :
        All (λ s. is_some s.ctdp_max_watts ≡ true) (candidates db k threads)
        → Judges r power_outside_band m.spec
        → All (Judges r power_outside_band) (candidates db k threads)
    ceiling_verdict_conservative known =
        carry _ (λ t s. ceiling_watts s ≤ ceiling_watts t) (ceiling_carries r laws) m found
          (λ s rest e. conservative-ceiling s rest (subst (All _) e known))

    -- With ordered comparisons, where every candidate publishes the lower end of its power band, a
    -- verdict that the power is below the merged rating is one on every candidate.
    pub floor_verdict_conservative :
        All (λ s. is_some s.ctdp_min_watts ≡ true) (candidates db k threads)
        → Judges r power_below_rating m.spec
        → All (Judges r power_below_rating) (candidates db k threads)
    floor_verdict_conservative known =
        carry _ (λ t s. floor_watts t ≤ floor_watts s) (floor_carries r laws) m found
          (λ s rest e. conservative-floor s rest (subst (All _) e known))

    -- With ordered comparisons: of two candidates that publish no upper end of a power band, the
    -- smaller rating is the merged ceiling. A power above the first rating and not above the
    -- greater second one is then a verdict on the match, and no verdict on the second candidate.
    pub merged_rating_not_conservative :
        (s t : CpuSpec F) (watts : F)
        → candidates db k threads ≡ s ∷ t ∷ []
        → s.ctdp_max_watts ≡ none
        → t.ctdp_max_watts ≡ none
        → s.tdp_watts < t.tdp_watts
        → r.cpu.package_watts ≡ some watts
        → f.lt (f.of_ℕ s.tdp_watts) watts ≡ true
        → f.le watts (f.of_ℕ t.tdp_watts) ≡ true
        → Judges r power_outside_band m.spec × (¬ Judges r power_outside_band t)
    merged_rating_not_conservative s t watts ec es et less ew above within =
        let merged : ceiling_watts m.spec ≡ s.tdp_watts =
          ap ceiling_watts (resolve-spec_eq db k threads m s (t ∷ []) found ec)
          ∙ conservative-rating s t es et less in
        (
          Judges-of_fires r power_outside_band m.spec
              (rw ew (subst (λ n. f.lt (f.of_ℕ n) watts ≡ true) (sym merged) above)),
          λ j. exceeds (rw (ew, et) at (fires_of_Judges r power_outside_band t j)),
        )
      where
        exceeds : ¬ (f.lt (f.of_ℕ t.tdp_watts) watts ≡ true)
        exceeds above = ground (arith, not-le_of_lt laws (f.of_ℕ t.tdp_watts) watts)
