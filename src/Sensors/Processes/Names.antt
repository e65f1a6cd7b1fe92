-- ===== src/Sensors/Processes/Names.antt =====
-- The cache of friendly names, and the name that is read from a path.
use text.Mathlib.Text.{◌==◌ as str_eq}
use text.Mathlib.TextEquality.{eq_iff}
use loadbear.Prelude.{
  length, length-append, ◌<◌, ℕ, ◌≡◌, refl, ap, ◌∙◌, inl, inr, Bool, true, false, String, Option,
  some, List, [], ◌∷◌, ◌++◌, All, Bool-cases, Option-cases, any, arith,
}
use loadbear.Float.{Float}
use loadbear.Sensors.Processes.{
  RawProcess, ProcessSampler, get_name, name_for, readings_of, sample_raw, stem_of, last_part,
  without_suffix, exe, is_separator, same_chars, non_empty, name_with,
}

abbrev pub zip : {A B : Type 0} → List A → List B → List (A × B)
zip (a ∷ as') (b ∷ bs) = (a, b) ∷ zip as' bs
zip _ _ = []

module _ (description : String → Option String) (path : String) (n : Option String) where
  -- A cached name stays, whatever is looked up.
  name_for-kept :
      (other : String) (names : List (String × Option String))
      → get_name path names ≡ some n
      → get_name path (name_for description other names).1 ≡ some n
  unfolding name_for name_with
  name_for-kept other names h = elim (Option-cases (get_name other names)) [
    | inr (m, e) ↦ rw e h
    | inl e ↦ elim (Bool-cases (str_eq path other)) [
      | inl t ↦ absurd (cc (ap (λ k. get_name k names) ((eq_iff path other).0 t), e, h))
      | inr t ↦ rw (e, t) h
    ]
  ]

  name_for-cached :
      (names : List (String × Option String))
      → get_name path names ≡ some n
      → (name_for description path names).0 ≡ n
  unfolding name_for name_with
  name_for-cached names h = rw h refl

module _ {F : Type 0} (description : String → Option String) where
  readings_of-cached :
      (share : RawProcess → F) (path : String) (n : Option String) (ps : List RawProcess)
      (names : List (String × Option String))
      → get_name path names ≡ some n
      → (get_name path (readings_of description share ps names).1 ≡ some n)
        × All
            (λ x. x.0.path ≡ path → x.1.display_name ≡ n)
            (zip ps (readings_of description share ps names).0)
  unfolding readings_of
  readings_of-cached share path n [] names h = (h, tt)
  readings_of-cached share path n (p ∷ ps) names h =
      let rest =
        readings_of-cached share path n ps (name_for description p.path names).1
          (name_for-kept description path n p.path names h) in
      (
        rest.0,
        (
          λ e.
              ap (λ k. (name_for description k names).0) e
              ∙ name_for-cached description path n names h,
          rest.1,
        ),
      )

module _ {D F : Type 0} ⦃d : Float D⦄ ⦃f : Float F⦄ (as_f32 : D → F) where
  -- Once a path is cached, its name never changes and its file is never asked again: whatever the files
  -- say at a later sample, every process of this path has the cached name, and the path stays cached.
  pub sample_raw-cached :
      (description : String → Option String) (raw : List RawProcess) (now_ms : ℕ)
      (sampler : ProcessSampler) (path : String) (n : Option String)
      → get_name path sampler.names ≡ some n
      → (get_name path (sample_raw as_f32 description raw now_ms sampler).0.names ≡ some n)
        × All
            (λ x. x.0.path ≡ path → x.1.display_name ≡ n)
            (zip raw (sample_raw as_f32 description raw now_ms sampler).1)
  unfolding sample_raw
  sample_raw-cached description raw now_ms sampler path n h =
      readings_of-cached description _ path n raw sampler.names h

same_chars_refl : (s : List ℕ) → same_chars s s ≡ true
same_chars_refl [] = refl
same_chars_refl (c ∷ s) = ground (arith, same_chars_refl s)

any-separator :
    (folder file : List ℕ) (c : ℕ)
    → is_separator c ≡ true
    → any is_separator (folder ++ c ∷ file) ≡ true
any-separator [] file c sep = rw sep refl
any-separator (x ∷ folder) file c sep = rw (any-separator folder file c sep) (ground arith)

-- The last part of a path is what stands after a separator, where it holds none itself.
last_part-append :
    (folder file : List ℕ) (c : ℕ)
    → is_separator c ≡ true
    → any is_separator file ≡ false
    → last_part (folder ++ c ∷ file) ≡ file
unfolding last_part
last_part-append [] file c sep plain = rw (plain, sep) refl
last_part-append (x ∷ folder) file c sep plain =
    rw (any-separator folder file c sep) (last_part-append folder file c sep plain)

shorter : (s t : List ℕ) → length t < length s → same_chars s t ≡ false
shorter [] t h = absurd (omega arith)
shorter (c ∷ s) [] h = refl
shorter (c ∷ s) (e ∷ t) h = ground (arith, shorter s t)

without_suffix-append :
    (suffix s : List ℕ) → 0 < length suffix → without_suffix suffix (s ++ suffix) ≡ s
unfolding without_suffix
without_suffix-append [] [] h = absurd (omega arith)
without_suffix-append (c ∷ suffix) [] h = rw (same_chars_refl (c ∷ suffix)) refl
without_suffix-append suffix (c ∷ s) h =
    let e : same_chars (c ∷ (s ++ suffix)) suffix ≡ false =
      shorter (c ∷ (s ++ suffix)) suffix (omega (arith, length-append s suffix)) in
    rw e (ap (◌∷◌ c) (without_suffix-append suffix s h))

any-append :
    (p : ℕ → Bool) (s t : List ℕ) → any p s ≡ false → any p t ≡ false → any p (s ++ t) ≡ false
any-append p [] t h k = k
any-append p (c ∷ s) t h k = ground (arith, any-append p s t)

-- The name of a process is what stands between the last separator of its path and the extension `.exe`,
-- where this is not empty.
pub stem_of-append :
    (folder name : List ℕ) (c : ℕ)
    → is_separator c ≡ true
    → any is_separator name ≡ false
    → 0 < length name
    → stem_of (folder ++ c ∷ (name ++ exe)) ≡ some name
unfolding stem_of
stem_of-append folder [] c sep plain h = absurd (omega arith)
stem_of-append folder (x ∷ name) c sep plain h =
    let last =
      last_part-append folder (x ∷ name ++ exe) c sep
        (any-append is_separator (x ∷ name) exe plain refl) in
    let whole = without_suffix-append exe (x ∷ name) (omega arith) in
    ap (λ s. non_empty (without_suffix exe s)) last ∙ ap non_empty whole
