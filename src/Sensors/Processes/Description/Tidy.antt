-- ===== src/Sensors/Processes/Description/Tidy.antt =====
-- The names that files give.
use loadbear.Prelude.{
  ℕ, ◌≡◌, refl, ap, inl, inr, Bool, true, false, not, List, [], ◌∷◌, ◌==◌, if◌then◌else◌,
  Bool-cases, AllSome, AllSome-bind, is_whitespace, trim_start, trim_end, trim,
}
use loadbear.Sensors.Shared.Label.{take}
use loadbear.Sensors.Processes.{non_empty}
use loadbear.Sensors.Processes.Description.{
  Version, Value, translation, description_key, without_nuls, text_of, file_description,
}

-- The first and the last character are there and are no whitespace.
abbrev pub starts_plain : List ℕ → Bool
starts_plain [] = false
starts_plain (c ∷ s) = not (is_whitespace c)

abbrev pub ends_plain : List ℕ → Bool
ends_plain [] = false
ends_plain (c ∷ []) = not (is_whitespace c)
ends_plain (c ∷ e ∷ s) = ends_plain (e ∷ s)

abbrev pub IsTidy : List ℕ → Type 0
IsTidy name = (starts_plain name ≡ true) × (ends_plain name ≡ true)

abbrev is_nil : List ℕ → Bool
is_nil [] = true
is_nil (c ∷ s) = false

-- What a cut leaves, if anything.
abbrev CutEnd : List ℕ → Type 0
CutEnd t = is_nil t ≡ false → ends_plain t ≡ true

last_cut : (c : ℕ) (b : Bool) → is_whitespace c ≡ b → CutEnd (if b then [] else c ∷ [])
last_cut c true e h = absurd (cc (h))
last_cut c false e h = ap not e

cut_end :
    (c : ℕ) (t : List ℕ)
    → CutEnd t
    → CutEnd (elim t [ [] ↦ if is_whitespace c then [] else c ∷ [] | e ∷ t' ↦ c ∷ e ∷ t' ])
cut_end c [] h = last_cut c (is_whitespace c) refl
cut_end c (e ∷ t) h = λ k. h refl

trim_end-CutEnd : (s : List ℕ) → CutEnd (trim_end s)
trim_end-CutEnd [] = λ h. absurd (cc (h))
trim_end-CutEnd (c ∷ s) = cut_end c (trim_end s) (trim_end-CutEnd s)

-- A cut at the end leaves a start that is no whitespace.
abbrev CutStart : List ℕ → Type 0
CutStart t = is_nil t ≡ false → starts_plain t ≡ true

start_stays :
    (c : ℕ) (b : Bool) (t : List ℕ)
    → is_whitespace c ≡ b
    → not b ≡ true
    → starts_plain (elim t [ [] ↦ if b then [] else c ∷ [] | e ∷ t' ↦ c ∷ e ∷ t' ]) ≡ true
start_stays c true t e h = absurd (cc (h))
start_stays c false [] e h = ap not e
start_stays c false (e' ∷ t) e h = ap not e

trim_end-CutStart : (s : List ℕ) → CutStart s → CutStart (trim_end s)
trim_end-CutStart [] h = h
trim_end-CutStart (c ∷ s) h = λ k. start_stays c (is_whitespace c) (trim_end s) refl (h refl)

first_cut :
    (c : ℕ) (b : Bool) (s rest : List ℕ)
    → is_whitespace c ≡ b
    → CutStart rest
    → CutStart (if b then rest else c ∷ s)
first_cut c true s rest e h = h
first_cut c false s rest e h = λ k. ap not e

trim_start-CutStart : (s : List ℕ) → CutStart (trim_start s)
trim_start-CutStart [] = λ h. absurd (cc (h))
trim_start-CutStart (c ∷ s) =
    first_cut c (is_whitespace c) s (trim_start s) refl (trim_start-CutStart s)

non_empty-AllTidy : (t : List ℕ) → CutStart t → CutEnd t → AllSome IsTidy (non_empty t)
non_empty-AllTidy [] a b = tt
non_empty-AllTidy (c ∷ s) a b = (a refl, b refl)

trim-AllTidy : (s : List ℕ) → AllSome IsTidy (non_empty (trim s))
trim-AllTidy s =
    let begun = trim_end-CutStart (trim_start s) (trim_start-CutStart s) in
    non_empty-AllTidy (trim s) begun (trim_end-CutEnd (trim_start s))

text_of-AllTidy : (utf16 : List ℕ → List ℕ) (value : Value) → AllSome IsTidy (text_of utf16 value)
unfolding text_of
text_of-AllTidy utf16 value =
    let trimmed = trim-AllTidy (without_nuls (utf16 (take value.len value.units))) in
    elim (Bool-cases value.is_null) [
      | inl e ↦ rw e tt
      | inr e ↦ elim (Bool-cases (value.len == 0)) [
        | inl z ↦ rw (e, z) tt
        | inr z ↦ rw (e, z) trimmed
      ]
    ]

pub file_description-AllTidy :
    (utf16 : List ℕ → List ℕ) (v : Version) → AllSome IsTidy (file_description utf16 v)
unfolding file_description
file_description-AllTidy utf16 v =
    let found = AllSome-bind IsTidy (translation v) _ (λ pair.
      AllSome-bind IsTidy (v.query (description_key pair.0 pair.1)) (text_of utf16)
        (text_of-AllTidy utf16)) in
    elim (Bool-cases (v.size == 0)) [
      | inl e ↦ rw e tt
      | inr e ↦ elim (Bool-cases v.loads) [ inl l ↦ rw (e, l) found | inr l ↦ rw (e, l) tt ]
    ]
