-- ===== src/Sensors/Counters/Query.antt =====
-- Opening the query, and what a sample holds of each counter.
use mathlib.Core.List.{append-nil, append_assoc}
use loadbear.Prelude.{
  Bool, true, false, not, ◌&&◌, ◌≡◌, refl, ap, ◌∙◌, inl, inr, Option, none, some, List, [], ◌∷◌,
  ◌++◌, arith, any, find, unwrap_or, if◌then◌else◌, Bool-cases,
}
use loadbear.Float.{Float, zero_float}
use loadbear.Sensors.Counters.{
  CounterSample, CounterPath, proc_performance, proc_frequency, proc_time, proc_queue, pages_input,
  available_mb, disk_latency, disk_queue, query_failed, counter_unavailable, Outcome, ok, err,
  QueryCall, add_counter, collect, close, paths, add_all, open_counters, assign, fill_sample,
  read_sample, empty_sample,
}

-- The field of a sample that belongs to a counter.
abbrev pub value_of : {D : Type 0} → CounterPath → CounterSample D → D
value_of proc_performance s = s.processor_performance_pct
value_of proc_frequency s = s.processor_frequency_mhz
value_of proc_time s = s.processor_time_pct
value_of proc_queue s = s.processor_queue_length
value_of pages_input s = s.pages_input_per_sec
value_of available_mb s = s.available_mbytes
value_of disk_latency s = s.disk_seconds_per_transfer
value_of disk_queue s = s.disk_queue_length

abbrev pub is_close : QueryCall → Bool
is_close close = true
is_close collect = false
is_close (add_counter p) = false

abbrev pub is_err : {A : Type 0} → Outcome A → Bool
is_err (err e) = true
is_err (ok a) = false

-- What a function gives of a result, where there is one.
abbrev pub ok_value : {A B : Type 0} → (A → B) → Outcome A → Option B
ok_value f (ok a) = some (f a)
ok_value f (err e) = none

-- All counters, or the first that is missing.
abbrev pub all_or_missing : List CounterPath → Option CounterPath → Outcome (List CounterPath)
all_or_missing handles none = ok handles
all_or_missing handles (some p) = err (counter_unavailable p)

close_after :
    (calls : List QueryCall) (c : QueryCall) → any is_close (calls ++ c ∷ close ∷ []) ≡ true
close_after [] c = ground arith
close_after (x ∷ calls) c = ground (arith, close_after calls c)

not_closed :
    (calls : List QueryCall) (c : QueryCall)
    → any is_close calls ≡ false
    → is_close c ≡ false
    → any is_close (calls ++ c ∷ []) ≡ false
not_closed [] c h e = ground arith
not_closed (x ∷ calls) c h e = ground (arith, not_closed calls c)

module _ (available : CounterPath → Bool) where
  -- The loop opens the rest, or fails at the first that is missing and closes the query exactly then.
  add_all_outcome :
      (ps : List CounterPath) (calls : List QueryCall) (handles : List CounterPath)
      → any is_close calls ≡ false
      → ((add_all available ps calls handles).1
          ≡ all_or_missing (handles ++ ps) (find (λ p. not (available p)) ps))
        × (any is_close (add_all available ps calls handles).0
            ≡ is_err (add_all available ps calls handles).1)
  unfolding add_all
  add_all_outcome [] calls handles h =
      (rw (append-nil handles) refl, not_closed calls collect h refl)
  add_all_outcome (p ∷ ps) calls handles h = elim (Bool-cases (available p)) [
    | inl e ↦
        let (o, c) =
          add_all_outcome ps (calls ++ add_counter p ∷ []) (handles ++ p ∷ [])
            (not_closed calls (add_counter p) h refl) in
        rw e (
          o
              ∙ ap (λ l. all_or_missing l (find (λ q. not (available q)) ps))
                  (append_assoc handles (p ∷ []) ps),
          c,
        )
    | inr e ↦ rw e (refl, close_after calls (add_counter p))
  ]

  -- Opening fails where the query cannot be opened; else it holds all eight counters, or names the first
  -- of them that is missing. A query that was opened is closed exactly where opening fails.
  pub open_counters-outcome :
      (opened : Bool)
      → ((open_counters opened available).1 ≡ (
          if opened
          then all_or_missing paths (find (λ p. not (available p)) paths)
          else err query_failed))
        × (any is_close (open_counters opened available).0
            ≡ (opened && is_err (open_counters opened available).1))
  unfolding open_counters
  open_counters-outcome true = add_all_outcome paths [] [] refl
  open_counters-outcome false = (refl, refl)

module _ {D : Type 0} ⦃d : Float D⦄ where
  fill_sample-fields :
      (value : CounterPath → Option D) (p : CounterPath)
      → value_of p (fill_sample value paths empty_sample) ≡ unwrap_or (value p) zero_float
  unfolding fill_sample assign
  fill_sample-fields value proc_performance = refl
  fill_sample-fields value proc_frequency = refl
  fill_sample-fields value proc_time = refl
  fill_sample-fields value proc_queue = refl
  fill_sample-fields value pages_input = refl
  fill_sample-fields value available_mb = refl
  fill_sample-fields value disk_latency = refl
  fill_sample-fields value disk_queue = refl

  -- A sample of all counters has in each field the value of that counter, and zero where the counter
  -- gives none; there is no sample only where nothing could be collected.
  pub read_sample-fields :
      (collected : Bool) (value : CounterPath → Option D) (p : CounterPath)
      → ok_value (value_of p) (read_sample collected value paths)
        ≡ (if collected then some (unwrap_or (value p) zero_float) else none)
  unfolding read_sample
  read_sample-fields true value p = ap some (fill_sample-fields value p)
  read_sample-fields false value p = refl
