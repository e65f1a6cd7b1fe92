-- ===== src/Service/PmTable/Snapshots.antt =====
-- When the dump of the table panics.
use loadbear.Prelude.{
  ℕ, zero, suc, ◌+◌, ◌≤◌, ◌<◌, ◌≡◌, refl, inl, inr, Bool, true, false, not, ◌&&◌, Option, none,
  some, List, [], ◌∷◌, map, foldl, any, arith, length, ltb, if◌then◌else◌, All, All_map, is_some,
  get_elem?-is_some, Bool-cases, Option-cases,
}
use loadbear.Float.{Float}
use loadbear.Sensors.Temperature.Registers.{Answer, ok, err}
use loadbear.Service.PmTable.{
  Smu, samples, Dumped, exited, panicked, shortest, column, taken, words_at, floats, rows, printed,
  sampled, resolved_as, dump,
}

abbrev is_nil : {A : Type 0} → List A → Bool
is_nil [] = true
is_nil (x ∷ xs) = false

abbrev is_answer : Answer → Bool
is_answer (ok words) = true
is_answer (err e) = false

abbrev pub is_panic : {F : Type 0} → Dumped F → Bool
is_panic panicked = true
is_panic (exited code found) = false

-- All snapshots were taken, and one of them has no word.
abbrev has_empty : Option (List (List ℕ)) → Bool
has_empty none = false
has_empty (some series) = any is_nil series

-- Everything before the print succeeds, and one of the snapshots has no word.
abbrev pub meets_empty : Smu → Bool
meets_empty smu =
    smu.opens
    && smu.loads
    && is_answer smu.resolved
    && has_empty (taken samples (λ i. words_at (smu.at i)))

foldl-least :
    (n : ℕ) (ns : List ℕ)
    → let least = foldl (λ a b. if ltb b a then b else a) n ns in
      (least ≤ n) × All (λ m. least ≤ m) ns
foldl-least n [] = (omega arith, tt)
foldl-least n (m ∷ ns) =
    let k = if ltb m n then m else n in
    let below : (k ≤ n) × (k ≤ m) = ground arith in
    let ih = foldl-least k ns in (omega arith, (omega arith, ih.1))

shortest-AtMost : (ns : List ℕ) → All (λ m. shortest ns ≤ m) ns
shortest-AtMost [] = tt
shortest-AtMost (n ∷ ns) = foldl-least n ns

module _ {F : Type 0} where
  column-is_some :
      (i : ℕ) (series : List (List F))
      → All (λ s. i < length s) series
      → is_some (column i series) ≡ true
  unfolding column
  column-is_some i [] h = refl
  column-is_some i (s ∷ series) h =
      let (v, e) = get_elem?-is_some s i h.0 in
      let ih = column-is_some i series h.1 in
      elim (Option-cases (column i series)) [
        | inl n ↦ absurd (cc (ih, n))
        | inr (vs, k) ↦ rw (e, k) refl
      ]

module _ {F : Type 0} ⦃f : Float F⦄ (from_bits : ℕ → F) (infinity negative_infinity : F)
    (min_float : F → F → F) where
  rows-is_some :
      (n i : ℕ) (series : List (List F))
      → All (λ s. i + n ≤ length s) series
      → is_some (rows infinity negative_infinity min_float n i series) ≡ true
  unfolding rows
  rows-is_some zero i series h = refl
  rows-is_some (suc n) i series h =
      let here = column-is_some i series (All_map _ _ (λ s l. omega arith) series h) in
      let ih = rows-is_some n (suc i) series (All_map _ _ (λ s l. omega arith) series h) in
      elim (Option-cases (column i series)) [
        | inl e ↦ absurd (cc (here, e))
        | inr (vals, e) ↦
            elim (Option-cases (rows infinity negative_infinity min_float n (suc i) series)) [
              | inl k ↦ absurd (cc (ih, k))
              | inr (rest, k) ↦ rw (e, k) refl
            ]
      ]

  length-floats : (words : List ℕ) → is_nil words ≡ false → 2 ≤ length (floats from_bits words)
  unfolding floats
  length-floats [] h = absurd (cc (h))
  length-floats (w ∷ words) h = omega arith

  -- With an empty snapshot there is no first column.
  column-empty :
      (series : List (List ℕ))
      → any is_nil series ≡ true
      → column 0 (map (floats from_bits) series) ≡ none
  unfolding column floats
  column-empty [] h = absurd (cc (h))
  column-empty ([] ∷ series) h = refl
  column-empty ((w ∷ words) ∷ series) h = rw (column-empty series h) refl

  all_wide :
      (series : List (List ℕ))
      → any is_nil series ≡ false
      → All (λ s. 2 ≤ length s) (map (floats from_bits) series)
  all_wide [] h = tt
  all_wide ([] ∷ series) h = absurd (cc (h))
  all_wide ((w ∷ words) ∷ series) h = (length-floats (w ∷ words) refl, all_wide series h)

  within :
      (n : ℕ) (series : List (List F))
      → All (λ m. n ≤ m) (map length series)
      → All (λ s. 0 + n ≤ length s) series
  within n [] h = tt
  within n (s ∷ series) h = (omega arith, within n series h.1)

  printed-is_none :
      (series : List (List ℕ))
      → is_some (printed infinity negative_infinity min_float (map (floats from_bits) series))
        ≡ not (any is_nil series)
  unfolding printed
  printed-is_none series =
      let shot = map (floats from_bits) series in
      let width = shortest (map length shot) in
      let found = rows infinity negative_infinity min_float width 0 shot in
      let all = rows-is_some width 0 shot (within width shot (shortest-AtMost (map length shot))) in
      elim (Bool-cases (any is_nil series)) [
        | inl e ↦ elim (Option-cases found) [
          | inl k ↦ rw (e, k) refl
          | inr (rs, k) ↦ rw (e, k, column-empty series e) refl
        ]
        | inr e ↦
            let wide = all_wide series e in
            let first = column-is_some 0 shot (All_map _ _ (λ s l. omega arith) shot wide) in
            let second = column-is_some 1 shot (All_map _ _ (λ s l. omega arith) shot wide) in
            ground arith
      ]

  is_panic-sampled :
      (series : Option (List (List ℕ)))
      → is_panic (sampled from_bits infinity negative_infinity min_float series) ≡ has_empty series
  unfolding sampled
  is_panic-sampled none = refl
  is_panic-sampled (some series) = let p = printed-is_none series in ground arith

  -- The dump panics exactly where the library opens and takes the module, the table is found, each of the ten
  -- snapshots is read, and one of them is read with no word; in every other case it ends.
  pub is_panic-dump :
      (smu : Smu)
      → is_panic (dump from_bits infinity negative_infinity min_float smu) ≡ meets_empty smu
  unfolding dump resolved_as
  is_panic-dump smu =
      let p = is_panic-sampled (taken samples (λ i. words_at (smu.at i))) in ground arith
