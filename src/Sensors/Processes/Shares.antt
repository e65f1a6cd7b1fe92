-- ===== src/Sensors/Processes/Shares.antt =====
-- The shares of one sample and of two samples after each other.
use loadbear.Prelude.{
  ℕ, ◌-◌, ◌≡◌, refl, ap, ◌∙◌, inl, inr, String, Option, none, some, List, [], ◌∷◌, ◌==◌,
  if◌then◌else◌, map, All, Bool-cases, Option-cases, arith,
}
use loadbear.Float.{Float, zero_float}
use loadbear.Float.Laws.{IsOrdered, IsCast, IsWithin, clamp-IsWithin, cast-IsWithin}
use loadbear.Core.Types.{ProcessReading}
use loadbear.Sensors.Processes.{
  RawProcess, ProcessSampler, get, collect_times, new, share_from, share_of_machine, readings_of,
  sample_raw,
}

-- The time of the last process with this id in the list, or else this one.
abbrev pub time_of : ℕ → List RawProcess → Option ℕ → Option ℕ
time_of pid [] o = o
time_of pid (p ∷ ps) o = time_of pid ps (if pid == p.pid then some p.cpu_100ns else o)

get-collect_times :
    (pid : ℕ) (ps : List RawProcess) (m : List (ℕ × ℕ))
    → get pid (collect_times ps m) ≡ time_of pid ps (get pid m)
unfolding collect_times
get-collect_times pid [] m = refl
get-collect_times pid (p ∷ ps) m = get-collect_times pid ps ((p.pid, p.cpu_100ns) ∷ m)

module _ {F : Type 0} where
  abbrev pub shares : List (ProcessReading F) → List F
  shares = map (λ r. r.cpu_percent)

  shares-readings_of :
      (description : String → Option String) (share : RawProcess → F) (ps : List RawProcess)
      (names : List (String × Option String))
      → shares (readings_of description share ps names).0 ≡ map share ps
  unfolding readings_of
  shares-readings_of description share [] names = refl
  shares-readings_of description share (p ∷ ps) names =
      ap (◌∷◌ (share p)) (shares-readings_of description share ps _)

module _ {F : Type 0} ⦃f : Float F⦄ where
  -- A percentage, or NaN.
  abbrev pub IsShare : F → Type 0
  IsShare = IsWithin zero_float (f.decimal 1000 1)

  zero-IsShare : IsOrdered F → IsShare zero_float
  zero-IsShare laws =
      inr (laws.le_refl _ (laws.decimal_number 0 1), laws.decimal_mono 0 1000 1 (omega arith))

  All-map :
      (share : RawProcess → F)
      → ((p : RawProcess) → IsShare (share p))
      → (ps : List RawProcess) → All IsShare (map share ps)
  All-map share h [] = tt
  All-map share h (p ∷ ps) = (h p, All-map share h ps)

module _ {D F : Type 0} ⦃d : Float D⦄ ⦃f : Float F⦄ (as_f32 : D → F) where
  -- Of two samples after each other, the second gives each process its share from its own time in the
  -- first sample, whatever was seen before that; it gives zero where no time passed between the two and
  -- where the first sample did not see the process.
  pub shares-sample-sample :
      (description : String → Option String) (first second : List RawProcess) (then_ms now_ms : ℕ)
      (sampler : ProcessSampler)
      → shares
          (sample_raw as_f32 description second now_ms
            (sample_raw as_f32 description first then_ms sampler).0).1
        ≡ map
            (λ p.
              if now_ms - then_ms == 0
              then zero_float
              else share_from as_f32 sampler.logical_cpus
                  (now_ms - then_ms)
                  p.cpu_100ns
                  (time_of p.pid first none))
            second
  unfolding sample_raw share_of_machine
  shares-sample-sample description first second then_ms now_ms sampler =
      shares-readings_of description _ second _ ∙ λ i.
      map
        (λ p.
          if now_ms - then_ms == 0
          then zero_float
          else share_from as_f32 sampler.logical_cpus (now_ms - then_ms) p.cpu_100ns
              (get-collect_times p.pid first [] i))
        second

  share_of_machine-IsShare :
      IsOrdered D
      → IsOrdered F
      → IsCast D F as_f32
      → (sampler : ProcessSampler) (p : RawProcess) (elapsed_ms : ℕ)
      → IsShare (share_of_machine as_f32 sampler p elapsed_ms)
  unfolding share_of_machine share_from
  share_of_machine-IsShare dlaws flaws cast sampler p elapsed_ms =
      elim (Bool-cases (elapsed_ms == 0)) [
        | inl e ↦ rw e (zero-IsShare flaws)
        | inr e ↦ elim (Option-cases (get p.pid sampler.previous)) [
          | inl n ↦ rw (e, n) (zero-IsShare flaws)
          | inr (t, n) ↦
              rw (e, n)
                (cast-IsWithin as_f32 cast 0 100 _ (omega arith) (omega arith) (
                  clamp-IsWithin dlaws _ zero_float (d.decimal 1000 1)
                    (dlaws.decimal_mono 0 1000 1 (omega arith))))
        ]
      ]

  -- Whatever the times say, every share of a sample lies between 0 and 100, or is NaN; and the first
  -- sample of a sampler gives every process zero.
  pub shares-sample_raw :
      IsOrdered D
      → IsOrdered F
      → IsCast D F as_f32
      → (description : String → Option String) (raw : List RawProcess) (now_ms logical_cpus : ℕ)
        (sampler : ProcessSampler)
      → All IsShare (shares (sample_raw as_f32 description raw now_ms sampler).1)
        × (shares (sample_raw as_f32 description raw now_ms (new logical_cpus)).1
            ≡ map (λ p. zero_float) raw)
  unfolding sample_raw share_of_machine
  shares-sample_raw dlaws flaws cast description raw now_ms logical_cpus sampler = (
    rw (shares-readings_of description _ raw sampler.names)
        (All-map _ (λ p. share_of_machine-IsShare dlaws flaws cast sampler p _) raw),
    shares-readings_of description _ raw [],
  )
