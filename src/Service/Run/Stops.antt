-- ===== src/Service/Run/Stops.antt =====
-- What is published until the service is stopped.
use mathlib.Core.List.{append-nil}
use loadbear.Prelude.{
  ℕ, ◌≡◌, refl, ap, inl, inr, Bool, true, false, not, ◌&&◌, ◌||◌, String, Option, none, some, List,
  [], ◌∷◌, ◌++◌, map, any, filter_map, filter_map-append, arith, if◌then◌else◌, Bool-cases,
}
use loadbear.Prelude.Calls.{is_ok}
use loadbear.Float.{Float}
use loadbear.Sensors.Shared.{SharedTemperature}
use loadbear.Sensors.Temperature.Registers.{Execute}
use loadbear.Sensors.Temperature.Intel.{Affinity}
use loadbear.Sensors.Temperature.Source.{WindowsTemperature, tjmax_c}
use loadbear.Service.{Pass, out_of, sample, sample_loop}
use loadbear.Service.Run.{
  Control, stop, shutdown, interrogate, other_control, controlled, Arrivals, looks, passes_under,
  Call, publish, Manager, ends_within, serve, run,
}

abbrev pub ends : Control → Bool
ends stop = true
ends shutdown = true
ends interrogate = false
ends other_control = false

-- The times of the passes up to the first stop or shutdown. One that comes during the sleep of a pass ends
-- the service after it, and one that comes before a pass ends it without it.
abbrev pub times_until_end : List (Arrivals × Pass) → List ℕ
times_until_end [] = []
times_until_end ((a, p) ∷ rest) =
    let later = if any (any ends) a.sleeping then [] else times_until_end rest in
    if any ends a.before then [] else p.now ∷ later

-- A stop or a shutdown comes before one of these passes or in its sleep.
abbrev pub has_end : List (Arrivals × Pass) → Bool
has_end = any (λ (a, p). any ends a.before || any (any ends) a.sleeping)

abbrev pub publishing : {F : Type 0} → Call F → Option ℕ
publishing (publish r) = some r.timestamp_ms
publishing _ = none

controlled_lem : (flag : Bool) (cs : List Control) → controlled flag cs ≡ flag || any ends cs
controlled_lem flag [] = ground arith
controlled_lem flag (stop ∷ cs) = let ih = controlled_lem true cs in ground arith
controlled_lem flag (shutdown ∷ cs) = let ih = controlled_lem true cs in ground arith
controlled_lem flag (interrogate ∷ cs) = controlled_lem flag cs
controlled_lem flag (other_control ∷ cs) = controlled_lem flag cs

-- Once the flag is set, every look sees it.
looks_lem :
    (css : List (List Control))
    → (any (λ b. b) (looks false css).0 ≡ any (any ends) css)
      × ((looks false css).1 ≡ any (any ends) css)
looks_lem [] = (refl, refl)
looks_lem (cs ∷ css) = elim (Bool-cases (any ends cs)) [
  | inl e ↦ rw (controlled_lem false cs, e) (refl, stays css)
  | inr e ↦ rw (controlled_lem false cs, e) (looks_lem css)
]
  where
    stays : (css : List (List Control)) → (looks true css).1 ≡ true
    stays [] = refl
    stays (cs ∷ css) = rw (controlled_lem true cs) (stays css)

ends_within-under :
    (events : List (Arrivals × Pass)) → ends_within (passes_under false events) ≡ has_end events
unfolding passes_under
ends_within-under [] = refl
ends_within-under ((a, p) ∷ rest) =
    let seen = looks_lem a.sleeping in
    elim (Bool-cases (any ends a.before)) [
      | inl e ↦ rw (controlled_lem false a.before, e) refl
      | inr e ↦ elim (Bool-cases (any (any ends) a.sleeping)) [
        | inl s ↦ rw (controlled_lem false a.before, e, seen.0, s) refl
        | inr s ↦ rw (controlled_lem false a.before, e, seen.0, seen.1, s) (ends_within-under rest)
      ]
    ]

module _ {D F : Type 0} ⦃d : Float D⦄ ⦃f : Float F⦄ (bytes : String → List ℕ) (nan : F)
    (as_f32 : D → F) (from_bits : ℕ → F) (affinity : Affinity) (execute_on : ℕ → Execute) where
  abbrev loop : Option F → List Pass → WindowsTemperature D → List (SharedTemperature F)
  loop = sample_loop bytes nan as_f32 from_bits affinity execute_on

  times-loop :
      (limit : Option F) (events : List (Arrivals × Pass)) (t : WindowsTemperature D)
      → map (λ r. r.timestamp_ms) (loop limit (passes_under false events) t)
        ≡ times_until_end events
  unfolding sample_loop passes_under sample out_of
  times-loop limit [] t = refl
  times-loop limit ((a, p) ∷ rest) t =
      let seen = looks_lem a.sleeping in
      elim (Bool-cases (any ends a.before)) [
        | inl e ↦ rw (controlled_lem false a.before, e) refl
        | inr e ↦ elim (Bool-cases (any (any ends) a.sleeping)) [
          | inl s ↦ rw (controlled_lem false a.before, e, seen.0, s) refl
          | inr s ↦
              rw (controlled_lem false a.before, e, seen.0, seen.1, s)
                (ap (◌∷◌ p.now) (times-loop limit rest _))
        ]
      ]

  publishing-map :
      (rs : List (SharedTemperature F))
      → filter_map publishing (map publish rs) ≡ map (λ r. r.timestamp_ms) rs
  publishing-map [] = refl
  publishing-map (r ∷ rs) = ap (◌∷◌ r.timestamp_ms) (publishing-map rs)

  publishing-serve :
      (creates : Bool) (events : List (Arrivals × Pass)) (t : WindowsTemperature D)
      (after : List (Call F))
      → filter_map publishing after ≡ []
      → filter_map publishing (
          serve bytes nan as_f32 from_bits affinity execute_on creates (passes_under false events) t
          ++ after)
        ≡ (if creates then times_until_end events else [])
  unfolding serve
  publishing-serve false events t after h = h
  publishing-serve true events t after h =
      rw
        (
          filter_map-append publishing
              (map publish (loop (tjmax_c t) (passes_under false events) t)) after,
          publishing-map (loop (tjmax_c t) (passes_under false events) t),
          times-loop (tjmax_c t) events t,
          h,
        )
        (append-nil (times_until_end events))

  -- The service publishes one record for each pass up to the first stop or shutdown, and none after it; other
  -- events change nothing. It publishes nothing where the handler is not registered, the status is not taken
  -- or the mapping is not created. It ends well exactly where each status is taken and a stop or shutdown
  -- comes, or where the mapping is not created.
  pub publishing-run :
      (m : Manager) (events : List (Arrivals × Pass)) (t : WindowsTemperature D)
      → let r = run bytes nan as_f32 from_bits affinity execute_on m events t in
        (filter_map publishing r.0
          ≡ (if m.registers && m.sets_running && m.creates then times_until_end events else []))
        × (is_ok r.1
            ≡ m.registers && m.sets_running && (not m.creates || has_end events) && m.sets_stopped)
  unfolding run
  publishing-run m events t =
      let served = publishing-serve m.creates events t in
      elim (Bool-cases m.registers) [
        | inl e ↦ elim (Bool-cases m.sets_running) [
          | inl s ↦ elim (Bool-cases (not m.creates || has_end events)) [
            | inl o ↦ elim (Bool-cases m.sets_stopped) [
              | inl x ↦ rw (e, s, ends_within-under events, o, x) (served _ refl, refl)
              | inr x ↦ rw (e, s, ends_within-under events, o, x) (served _ refl, refl)
            ]
            | inr o ↦ rw (e, s, ends_within-under events, o) (served [] refl, refl)
          ]
          | inr s ↦ rw (e, s) (refl, refl)
        ]
        | inr e ↦ rw e (refl, refl)
      ]
