-- ===== src/Sensors/Baseline/Window.antt =====
-- The moving window against the list of all qualifying latencies.
use mathlib.Core.List.{append-nil, append_assoc}
use loadbear.Prelude.{
  Option, All-append, suc, ◌≤◌, ◌≡◌, refl, sym, ap, ◌∙◌, inl, inr, true, false, none, some, List,
  [], ◌∷◌, ◌++◌, arith, All, length, length-append, length-drop, filter, All-filter, All-drop,
  last_of-append, length-last_of, Bool-cases, ◌==◌, if◌then◌else◌,
}
use loadbear.Float.{Float, zero_float}
use loadbear.Float.Laws.{IsOrdered}
use loadbear.Sensors.Counters.{CounterSample}
use loadbear.Sensors.Baseline.{
  DiskBaseline, Storage, window, new, make_room, newest, is_rejected, observe, is_usable, restored,
  load, save_if_changed, written,
}

-- One more sample at the end of all of them.
newest-append :
    {A : Type 0} (xs : List A) (x : A) → make_room (newest xs) ++ x ∷ [] ≡ newest (xs ++ x ∷ [])
unfolding make_room newest
newest-append xs x = last_of-append window xs x (omega arith)

module _ {D : Type 0} ⦃d : Float D⦄ where
  -- The latencies of the samples that are not rejected, in order.
  abbrev pub latencies : List (CounterSample D) → List D
  latencies [] = []
  latencies (s ∷ ss) =
      if is_rejected s then latencies ss else s.disk_seconds_per_transfer ∷ latencies ss

  abbrev pub observe_all : List (CounterSample D) → DiskBaseline D → DiskBaseline D
  observe_all [] b = b
  observe_all (s ∷ ss) b = observe_all ss (observe s b)

  observe_rejected :
      (s : CounterSample D) (b : DiskBaseline D) → is_rejected s ≡ true → observe s b ≡ b
  unfolding observe
  observe_rejected s b r = rw r

  observe_taken :
      (s : CounterSample D) (b : DiskBaseline D)
      → is_rejected s ≡ false
      → (observe s b).samples ≡ make_room b.samples ++ s.disk_seconds_per_transfer ∷ []
  unfolding observe
  observe_taken s b r = rw r

  samples-observe_all :
      (past : List D) (ss : List (CounterSample D)) (b : DiskBaseline D)
      → b.samples ≡ newest past
      → (observe_all ss b).samples ≡ newest (past ++ latencies ss)
  samples-observe_all past [] b e = e ∙ ap newest (sym (append-nil past))
  samples-observe_all past (s ∷ ss) b e = elim (Bool-cases (is_rejected s)) [
    | inl r ↦
        ap (λ x. (observe_all ss x).samples) (observe_rejected s b r)
        ∙ rw r (samples-observe_all past ss b e)
    | inr r ↦ rw r (
        samples-observe_all (past ++ s.disk_seconds_per_transfer ∷ []) ss _ (
          observe_taken s b r
          ∙ ap (λ l. make_room l ++ s.disk_seconds_per_transfer ∷ []) e
          ∙ newest-append past _)
        ∙ ap newest (append_assoc past (s.disk_seconds_per_transfer ∷ []) (latencies ss)))
  ]

  -- After any samples, a baseline that was new holds exactly the newest 512 latencies of those that
  -- qualify, oldest first.
  pub observe_all-newest :
      (ss : List (CounterSample D)) → (observe_all ss new).samples ≡ newest (latencies ss)
  unfolding newest
  observe_all-newest ss = samples-observe_all [] ss new refl

  -- At most 512 samples, and each of them finite and above zero.
  pub record IsWellFormed (b : DiskBaseline D) : Type 0 where
    pub bounded : length b.samples ≤ window
    pub usable : All (λ v. is_usable v ≡ true) b.samples

  length-newest : (xs : List D) → length (newest xs) ≤ window
  unfolding newest
  length-newest xs = length-last_of window xs

  -- Whatever is stored, a baseline that is loaded has at most 512 samples, each of them finite and
  -- above zero, and has nothing to write.
  pub load-IsWellFormed :
      (store : Storage D) → IsWellFormed (load store) × ((load store).dirty ≡ false)
  unfolding load restored newest
  load-IsWellFormed store = from_stored _
    where
      from_stored : (o : Option (List D)) → IsWellFormed (restored o) × ((restored o).dirty ≡ false)
      from_stored none = (record { bounded = omega arith; usable = tt }, refl)
      from_stored (some xs) = (
        record {
          bounded = length-newest (filter is_usable xs);
          usable = All-drop _ _ _ (All-filter is_usable xs);
        },
        refl,
      )

  length-make_room : (xs : List D) → length xs ≤ window → suc (length (make_room xs)) ≤ window
  unfolding make_room
  length-make_room xs h = elim (Bool-cases (length xs == window)) [
    | inl e ↦ rw e (ground (arith, length-drop 1 xs))
    | inr e ↦ rw e (ground arith)
  ]

  All-make_room : (P : D → Type 0) (xs : List D) → All P xs → All P (make_room xs)
  unfolding make_room
  All-make_room P xs h = elim (Bool-cases (length xs == window)) [
    | inl e ↦ rw e (All-drop P 1 xs h)
    | inr e ↦ rw e h
  ]

  usable_latency :
      IsOrdered D
      → (s : CounterSample D) → is_rejected s ≡ false
      → is_usable s.disk_seconds_per_transfer ≡ true
  unfolding is_rejected
  usable_latency laws s r = ground (
    arith,
    laws.finite_number s.disk_seconds_per_transfer,
    laws.decimal_number 0 1,
    laws.lt-eq-not-le zero_float s.disk_seconds_per_transfer,
  )

  -- With ordered comparisons, an observation keeps a baseline well formed: at most 512 samples,
  -- each of them finite and above zero.
  pub observe-IsWellFormed :
      IsOrdered D
      → (s : CounterSample D) (b : DiskBaseline D) → IsWellFormed b
      → IsWellFormed (observe s b)
  unfolding observe
  observe-IsWellFormed laws s b w = elim (Bool-cases (is_rejected s)) [
    | inl r ↦ rw r w
    | inr r ↦ rw r (record {
      bounded = omega (
        arith,
        length-append (make_room b.samples) (s.disk_seconds_per_transfer ∷ []),
        length-make_room b.samples w.bounded,
      );
      usable =
          All-append _ (make_room b.samples) _ (All-make_room _ b.samples w.usable)
            (usable_latency laws s r, tt);
    })
  ]

module _ {D : Type 0} where
  -- Saving leaves the samples alone.
  pub samples-save_if_changed :
      (store : Storage D) (b : DiskBaseline D) → (save_if_changed store b).0.samples ≡ b.samples
  unfolding save_if_changed written
  samples-save_if_changed store b = ground arith
