-- ===== src/Sensors/Processes/Description/Runs.antt =====
-- The names in runs of samples.
use text.Mathlib.Text.{◌==◌ as str_eq}
use loadbear.Prelude.{
  ℕ, ◌≡◌, refl, inl, inr, String, Option, none, some, List, [], ◌∷◌, All, AllSome, Bool-cases,
  ◌>>=◌,
}
use loadbear.Float.{Float}
use loadbear.Core.Types.{ProcessReading}
use loadbear.Sensors.Processes.{
  RawProcess, ProcessSampler, new, get_name, name_for, name_with, readings_of, sample_raw,
}
use loadbear.Sensors.Processes.Description.{Version, file_description}
use loadbear.Sensors.Processes.Description.Tidy.{IsTidy, file_description-AllTidy}

-- What a sample meets: the processes, the time, and the files as they are then.
pub record Sampled : Type 0 where
  pub raw : List RawProcess
  pub now_ms : ℕ
  pub version : String → Version

module _ (P : String → Type 0) where
  abbrev AllNames : List (String × Option String) → Type 0
  AllNames names = All (λ e. AllSome P e.1) names

  get_name-All :
      (k : String) (names : List (String × Option String))
      → AllNames names
      → AllSome (AllSome P) (get_name k names)
  get_name-All k [] h = tt
  get_name-All k ((k', n) ∷ names) h = elim (Bool-cases (str_eq k k')) [
    | inl e ↦ rw e h.0
    | inr e ↦ rw e (get_name-All k names h.1)
  ]

  module _ (description : String → Option String)
      (given : (path : String) → AllSome P (description path)) where
    name_with-All :
        (path : String) (names : List (String × Option String)) (cached : Option (Option String))
        → AllNames names
        → AllSome (AllSome P) cached
        → AllSome P (name_with description path names cached).0
          × AllNames (name_with description path names cached).1
    unfolding name_with
    name_with-All path names none h c = (given path, (given path, h))
    name_with-All path names (some n) h c = (c, h)

    name_for-All :
        (path : String) (names : List (String × Option String))
        → AllNames names
        → AllSome P (name_for description path names).0
          × AllNames (name_for description path names).1
    unfolding name_for
    name_for-All path names h =
        name_with-All path names (get_name path names) h (get_name-All path names h)

    readings_of-All :
        {F : Type 0} (share : RawProcess → F) (ps : List RawProcess)
        (names : List (String × Option String))
        → AllNames names
        → All (λ r. AllSome P r.display_name) (readings_of description share ps names).0
          × AllNames (readings_of description share ps names).1
    unfolding readings_of
    readings_of-All share [] names h = (tt, h)
    readings_of-All share (p ∷ ps) names h =
        let named = name_for-All p.path names h in
        let rest = readings_of-All share ps (name_for description p.path names).1 named.1 in
        ((named.0, rest.0), rest.1)

module _ (utf16 : List ℕ → List ℕ) (text : List ℕ → String) where
  -- The name that a file gives.
  abbrev pub description_at : Sampled → String → Option String
  description_at s path = do name ← file_description utf16 (s.version path); some (text name)

  abbrev pub IsTidyText : String → Type 0
  IsTidyText shown = (name : List ℕ) × (shown ≡ text name) × IsTidy name

  description_at-All : (s : Sampled) (path : String) → AllSome IsTidyText (description_at s path)
  description_at-All s path =
      given (file_description utf16 (s.version path))
        (file_description-AllTidy utf16 (s.version path))
    where
      given :
          (o : Option (List ℕ))
          → AllSome IsTidy o
          → AllSome IsTidyText (do name ← o; some (text name))
      given none h = tt
      given (some name) h = (name, refl, h)

module _ {D F : Type 0} ⦃d : Float D⦄ ⦃f : Float F⦄ (as_f32 : D → F) (utf16 : List ℕ → List ℕ)
    (text : List ℕ → String) where
  -- The samples of a run, one after the other.
  pub sample_all : List Sampled → ProcessSampler → List (List (ProcessReading F))
  sample_all [] sampler = []
  sample_all (s ∷ ss) sampler =
      let after = sample_raw as_f32 (description_at utf16 text s) s.raw s.now_ms sampler in
      after.1 ∷ sample_all ss after.0

  kept :
      (ss : List Sampled) (sampler : ProcessSampler)
      → AllNames (IsTidyText utf16 text) sampler.names
      → All (All (λ r. AllSome (IsTidyText utf16 text) r.display_name)) (sample_all ss sampler)
  unfolding sample_all sample_raw
  kept [] sampler h = tt
  kept (s ∷ ss) sampler h =
      let all =
        readings_of-All (IsTidyText utf16 text) (description_at utf16 text s)
          (description_at-All utf16 text s) _ s.raw sampler.names h in
      (all.0, kept ss _ all.1)

  -- Whatever the system answers about whatever files, in a run of samples from the start every friendly name,
  -- cached or new, is the text of a name that is not empty and neither begins nor ends with whitespace.
  pub sample_all-AreTidy :
      (ss : List Sampled) (logical_cpus : ℕ)
      → All
          (All (λ r. AllSome (IsTidyText utf16 text) r.display_name))
          (sample_all ss (new logical_cpus))
  sample_all-AreTidy ss logical_cpus = kept ss (new logical_cpus) tt
