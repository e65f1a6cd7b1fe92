-- ===== src/Sensors/Counters/Window.antt =====
-- The rolling window against the list of all samples that were pushed.
use mathlib.Core.List.{append-nil, append_assoc}
use loadbear.Prelude.{
  ◌<◌, ◌==◌, inl, inr, Bool-cases, drop, length-append, length-drop, ℕ, max, ◌-◌, ◌≤◌, ◌≡◌, refl,
  sym, ap, ◌∙◌, List, [], ◌∷◌, ◌++◌, arith, length, last_of, last_of-append, length-last_of,
}
use loadbear.Sensors.Counters.{CounterSample, SampleWindow, new, push}

module _ {D : Type 0} where
  abbrev pub push_all : List (CounterSample D) → SampleWindow D → SampleWindow D
  push_all [] w = w
  push_all (s ∷ ss) w = push_all ss (push s w)

  samples-push_all :
      (capacity : ℕ) (past ss : List (CounterSample D))
      → (push_all ss
          (record { capacity = max capacity 1; samples = last_of (max capacity 1) past }))
        ≡ record { capacity = max capacity 1; samples = last_of (max capacity 1) (past ++ ss) }
  unfolding push
  samples-push_all capacity past [] = rw (append-nil past)
  samples-push_all capacity past (s ∷ ss) =
      ap (λ l. push_all ss (record { capacity = max capacity 1; samples = l }))
        (last_of-append (max capacity 1) past s (omega arith))
      ∙ samples-push_all capacity (past ++ s ∷ []) ss
      ∙ ap (λ l. record { capacity = max capacity 1; samples = last_of (max capacity 1) l })
          (append_assoc past (s ∷ []) ss)

  -- After any pushes, a window that was new holds exactly the newest samples, oldest first, as many as
  -- its capacity and no more; a capacity of 0 is taken as 1.
  pub push_all-newest :
      (capacity : ℕ) (ss : List (CounterSample D))
      → ((push_all ss (new capacity)).samples ≡ last_of (max capacity 1) ss)
        × (length (push_all ss (new capacity)).samples ≤ max capacity 1)
  push_all-newest capacity ss =
      let none_yet : 0 - max capacity 1 ≡ 0 = omega arith in
      let start : last_of {A = CounterSample D} (max capacity 1) [] ≡ [] = rw none_yet refl in
      let e : (push_all ss (new capacity)).samples ≡ last_of (max capacity 1) ss =
        ap (λ l. (push_all ss (record { capacity = max capacity 1; samples = l })).samples)
          (sym start)
        ∙ ap (λ w. w.samples) (samples-push_all capacity [] ss) in
      (e, rw e (length-last_of (max capacity 1) ss))

  pub length-push :
      (s : CounterSample D) (w : SampleWindow D)
      → 0 < w.capacity
      → length w.samples ≤ w.capacity
      → (length (push s w).samples ≤ w.capacity) × ((push s w).capacity ≡ w.capacity)
  unfolding push
  length-push s w pos h = elim (Bool-cases (length w.samples == w.capacity)) [
    | inl e ↦
        rw e
          (ground (arith, length-append (drop 1 w.samples) (s ∷ []), length-drop 1 w.samples), refl)
    | inr e ↦ rw e (ground (arith, length-append w.samples (s ∷ [])), refl)
  ]
