-- ===== src/Sensors/Counters/Middle.antt =====
-- The median of a window against the values of its samples.
use mathlib.Core.Option.{some-injective}
use loadbear.Prelude.{
  ℕ, suc, ◌+◌, ◌-◌, ◌/◌, ◌%◌, ◌≤◌, ◌<◌, ◌≡◌, refl, sym, ap, ◌∙◌, ◌⊎◌, inl, inr, Bool, true, false,
  ◌&&◌, Option, none, some, List, [], ◌∷◌, map, length, get_elem?, sort_by, arith, Bool-cases, ◌==◌,
  ◌>>=◌, count_if, count_if_mono, count_if-sort_by, length-sort_by, sort_by-IsSortedBy, sorted-le,
  le-sorted, get_elem?-is_some,
}
use loadbear.Float.{Float}
use loadbear.Float.Laws.{IsTotal}
use loadbear.Sensors.Counters.{
  CounterSample, CounterPath, proc_performance, proc_frequency, proc_time, proc_queue, pages_input,
  available_mb, disk_latency, disk_queue, SampleWindow, middle, pick, median, is_empty,
}
use loadbear.Sensors.Counters.Query.{value_of}

module _ {D : Type 0} ⦃d : Float D⦄ where
  -- By `total_cmp`, not below `low` and not above `high`.
  abbrev pub between : D → D → D → Bool
  between low high x = d.total_le low x && d.total_le x high

  -- A value between the bounds, or half the sum of two.
  abbrev pub IsMiddle : D → D → D → Type 0
  IsMiddle low high m =
      (between low high m ≡ true)
      ⊎ ((a : D) × (b : D) × (between low high a ≡ true)
          × (between low high b ≡ true)
          × (m ≡ d.div (d.add a b) (d.decimal 20 1)))

  -- In the sorted list, an index near the middle has a value between bounds that enclose more than half.
  sorted_between :
      IsTotal D
      → (low high : D) (values : List D) (i : ℕ) (a : D) → i < count_if (between low high) values
      → length values ≤ i + count_if (between low high) values
      → get_elem? (sort_by d.total_le values) i ≡ some a
      → between low high a ≡ true
  sorted_between total low high values i a above below e =
      let sorted = sort_by-IsSortedBy d.total_le total.total_le_total total.total_le_trans values in
      let up : d.total_le a high ≡ true =
        sorted-le d.total_le total.total_le_total total.total_le_trans high _ i a sorted
          (omega (
            arith,
            count_if-sort_by d.total_le (λ x. d.total_le x high) values,
            count_if_mono (between low high) (λ x. d.total_le x high) (λ x h. ground arith) values,
          ))
          e in
      let down : d.total_le low a ≡ true =
        le-sorted d.total_le total.total_le_total total.total_le_trans low _ i a sorted
          (omega (
            arith,
            length-sort_by d.total_le values,
            count_if-sort_by d.total_le (d.total_le low) values,
            count_if_mono (between low high) (d.total_le low) (λ x h. ground arith) values,
          ))
          e in
      ground arith

  halves :
      (o p : Option D) (m : D)
      → (do low ← o; high ← p; some (d.div (d.add low high) (d.decimal 20 1))) ≡ some m
      → (a : D) × (b : D) × (o ≡ some a) × (p ≡ some b) × (m ≡ d.div (d.add a b) (d.decimal 20 1))
  halves none p m e = absurd (cc (e))
  halves (some a) none m e = absurd (cc (e))
  halves (some a) (some b) m e = (a, b, refl, refl, sym (some-injective _ _ e))

  middle-between :
      IsTotal D
      → (low high : D) (values : List D) (m : D)
      → length values / 2 < count_if (between low high) values
      → middle (sort_by d.total_le values) ≡ some m
      → IsMiddle low high m
  unfolding middle
  middle-between total low high values m h e = elim (Bool-cases (length values % 2 == 0)) [
    | inl even ↦
        let (a, b, ea, eb, em) =
          halves (get_elem? (sort_by d.total_le values) (length values / 2 - 1))
            (get_elem? (sort_by d.total_le values) (length values / 2)) m
            (rw (length-sort_by d.total_le values, even) at e) in
        inr (
          a,
          b,
          sorted_between total low high values _ a (omega arith) (ground arith) ea,
          sorted_between total low high values _ b h (ground arith) eb,
          em,
        )
    | inr odd ↦ inl (
        sorted_between total low high values (length values / 2) m h (ground arith)
          (rw (length-sort_by d.total_le values, odd) at e))
  ]

  middle-is_some : (values : List D) → 0 < length values → (m : D) × (middle values ≡ some m)
  unfolding middle
  middle-is_some values h = elim (Bool-cases (length values % 2 == 0)) [
    | inl even ↦
        let (a, ea) = get_elem?-is_some values (length values / 2 - 1) (ground arith) in
        let (b, eb) = get_elem?-is_some values (length values / 2) (ground arith) in
        rw (even, ea, eb) (d.div (d.add a b) (d.decimal 20 1), refl)
    | inr odd ↦ rw odd (get_elem?-is_some values (length values / 2) (ground arith))
  ]

  length-map :
      (f : CounterSample D → D) (xs : List (CounterSample D)) → length (map f xs) ≡ length xs
  length-map f [] = refl
  length-map f (x ∷ xs) = ap suc (length-map f xs)

  pick-is_some :
      (samples : List (CounterSample D)) (f : CounterSample D → D)
      → (length samples == 0) ≡ false
      → (m : D) × (pick samples f ≡ some m)
  unfolding pick
  pick-is_some samples f h =
      middle-is_some (sort_by d.total_le (map f samples))
        (ground (arith, length-sort_by d.total_le (map f samples), length-map f samples))

  abbrev sample_of : (CounterPath → D) → CounterSample D
  sample_of g = record {
    processor_performance_pct = g proc_performance;
    processor_frequency_mhz = g proc_frequency;
    processor_time_pct = g proc_time;
    processor_queue_length = g proc_queue;
    pages_input_per_sec = g pages_input;
    available_mbytes = g available_mb;
    disk_seconds_per_transfer = g disk_latency;
    disk_queue_length = g disk_queue;
  }

  value_of-sample_of : (g : CounterPath → D) (p : CounterPath) → value_of p (sample_of g) ≡ g p
  value_of-sample_of g proc_performance = refl
  value_of-sample_of g proc_frequency = refl
  value_of-sample_of g proc_time = refl
  value_of-sample_of g proc_queue = refl
  value_of-sample_of g pages_input = refl
  value_of-sample_of g available_mb = refl
  value_of-sample_of g disk_latency = refl
  value_of-sample_of g disk_queue = refl

  picked : (w : SampleWindow D) → is_empty w ≡ false → CounterPath → D
  picked w h p = (pick-is_some w.samples (value_of p) h).0

  pick-picked :
      (w : SampleWindow D) (h : is_empty w ≡ false) (p : CounterPath)
      → pick w.samples (value_of p) ≡ some (picked w h p)
  unfolding picked
  pick-picked w h p = (pick-is_some w.samples (value_of p) h).1

  median-picked :
      (w : SampleWindow D) (h : is_empty w ≡ false) → median w ≡ some (sample_of (picked w h))
  unfolding median
  median-picked w h =
      let e = pick-picked w h in
      rw
        (
          h,
          e proc_performance,
          e proc_frequency,
          e proc_time,
          e proc_queue,
          e pages_input,
          e available_mb,
          e disk_latency,
          e disk_queue,
        )
        refl

  -- A window with a sample has a median; and where `total_cmp` is a total order, for each counter, if
  -- more than half of the samples lie between two bounds, so does the median, or else it is half the sum
  -- of two values that do. One sample of three or more cannot move it further.
  pub median_majority :
      IsTotal D
      → (w : SampleWindow D) → is_empty w ≡ false
      → (m : CounterSample D) × (median w ≡ some m)
        × ((p : CounterPath) (low high : D)
            → length w.samples / 2 < count_if (between low high) (map (value_of p) w.samples)
            → IsMiddle low high (value_of p m))
  unfolding pick
  median_majority total w h = (
    sample_of (picked w h),
    median-picked w h,
    λ p low high more.
        middle-between total low high (map (value_of p) w.samples)
          (value_of p (sample_of (picked w h))) (rw (length-map (value_of p) w.samples) more)
          (pick-picked w h p ∙ ap some (sym (value_of-sample_of (picked w h) p))),
  )
