-- ===== src/App/Startup/Candidates.antt =====
-- Whom the interface holds a processor against.
use mathlib.Core.Path.{subst}
use loadbear.Prelude.{
  ℕ, ◌≡◌, refl, inl, inr, String, Option, none, some, List, [], ◌∷◌, All, Option-cases,
}
use loadbear.Float.{Float}
use loadbear.Core.Types.{Reading}
use loadbear.Core.Spec.{CpuKey, CpuSpec, SpecDb, candidates, match_of, resolve}
use loadbear.Core.Verdict.{below_base_clock, evaluate}
use loadbear.Core.Verdict.Fires.{count}
use loadbear.Core.Verdict.Conservative.{Judges, clock_verdict_conservative}
use loadbear.Core.Attribution.Groups.{Lowercase}
use loadbear.Sensors.Cpuid.{CpuId, current_cpu_key}
use loadbear.App.State.{Round, Loop}
use loadbear.App.Tick.{reading_of}
use loadbear.App.Startup.{threads_of, spec_of, setup_of}

module _ {F : Type 0} ⦃f : Float F⦄ where
  -- Without a match there is no candidate.
  none_left : (P : CpuSpec F → Type 0) (cs : List (CpuSpec F)) → match_of cs ≡ none → All P cs
  unfolding match_of
  none_left P [] e = tt
  none_left P (s ∷ ss) e = absurd (cc (e))

  spec_of-candidates :
      (db : SpecDb F) (k : CpuKey) (threads : ℕ) (r : Reading F)
      → count below_base_clock (evaluate r (spec_of db (some k) threads)) ≡ 1
      → All (Judges r below_base_clock) (candidates db k threads)
  unfolding spec_of resolve
  spec_of-candidates db k threads r h = elim (Option-cases (resolve db k threads)) [
    | inl e ↦ none_left (Judges r below_base_clock) (candidates db k threads) e
    | inr (m, e) ↦
        let found : spec_of db (some k) threads ≡ some m.spec = rw e refl in
        clock_verdict_conservative db k threads r m e
          (subst (λ s. count below_base_clock (evaluate r s) ≡ 1) found h)
  ]

module _ {D F : Type 0} ⦃d : Float D⦄ ⦃f : Float F⦄ ⦃l : Lowercase⦄ (as_f32 : D → F)
    (parse : List ℕ → Option D) (round_u32 : D → ℕ) where
  -- In any round of an interface that identified the processor at its start, a verdict that the clock is below
  -- the base clock is one on every product of the database that the processor can be: on each entry with its
  -- vendor, family and model, or on each of these with its number of threads where there are any.
  pub clock_verdict_shown :
      (db : SpecDb F) (cpuid : CpuId) (available : Option ℕ) (decode : List ℕ → String) (k : CpuKey)
      (x : Round D F) (s : Loop D F)
      → current_cpu_key cpuid ≡ some k
      → let setup = setup_of parse round_u32 db cpuid available decode in
        let r = reading_of as_f32 round_u32 setup x s in
        count below_base_clock (evaluate r setup.spec) ≡ 1
        → All (Judges r below_base_clock) (candidates db k (threads_of available))
  unfolding setup_of
  clock_verdict_shown db cpuid available decode k x s e h =
      let setup = setup_of parse round_u32 db cpuid available decode in
      let r = reading_of as_f32 round_u32 setup x s in
      spec_of-candidates db k (threads_of available) r (
        subst
          (λ key. count below_base_clock (evaluate r (spec_of db key (threads_of available))) ≡ 1) e
          h)
