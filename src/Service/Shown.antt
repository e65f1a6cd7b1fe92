-- ===== src/Service/Shown.antt =====
-- What the interface reads from a record of the helper.
use loadbear.Prelude.{
  ℕ, zero, suc, min, ◌-◌, ◌<◌, ◌≤◌, ◌≡◌, refl, ap, inl, inr, true, false, String, Option, none,
  some, List, [], ◌∷◌, map, length, arith, All, AllSome, Bool-cases, leb, any, unwrap_or,
}
use loadbear.Float.{Float}
use loadbear.Sensors.Shared.{
  SharedTemperature, max_zones, stale_after_ms, real, watts, tjmax, package_temp, present,
  zone_list, helper_is_current, is_fresh, set_label,
}
use loadbear.Sensors.Shared.Label.{take, label_bytes-set_label}
use loadbear.Sensors.Mapping.{payload}
use loadbear.Sensors.Temperature.Registers.{TemperatureZone, TemperatureReading}
use loadbear.Sensors.Temperature.Credible.{IsPlausible, AllPlausible, IsCredible}
use loadbear.Sensors.Temperature.Intel.{Affinity}
use loadbear.Sensors.Temperature.Registers.{Execute}
use loadbear.Sensors.Temperature.Source.{WindowsTemperature, package_watts}
use loadbear.Sensors.Temperature.Source.Zones.{read-IsCredible}
use loadbear.Service.{replicate, overwrite, Pass, out_of, source_at, sample, sample_loop}

length-take : {A : Type 0} (n : ℕ) (xs : List A) → length (take n xs) ≡ min n (length xs)
length-take zero xs = omega arith
length-take (suc n) [] = omega arith
length-take (suc n) (x ∷ xs) = let e = length-take n xs in omega arith

All-take : {A : Type 0} (P : A → Type 0) (n : ℕ) (xs : List A) → All P xs → All P (take n xs)
All-take P zero xs h = tt
All-take P (suc n) [] h = tt
All-take P (suc n) (x ∷ xs) h = (h.0, All-take P n xs h.1)

take-min : {A : Type 0} (n : ℕ) (xs : List A) → take (min (length xs) n) xs ≡ take n xs
take-min zero xs = let e : min (length xs) 0 ≡ 0 = omega arith in rw e refl
take-min (suc n) [] = let e : min 0 (suc n) ≡ 0 = omega arith in rw e refl
take-min (suc n) (x ∷ xs) =
    let e : min (suc (length xs)) (suc n) ≡ suc (min (length xs) n) = omega arith in
    rw e (ap (◌∷◌ x) (take-min n xs))

length-replicate : {A : Type 0} (n : ℕ) (x : A) → length (replicate n x) ≡ n
length-replicate zero x = refl
length-replicate (suc n) x = ap suc (length-replicate n x)

module _ {F : Type 0} ⦃f : Float F⦄ (bytes : String → List ℕ) (decode : List ℕ → String) where
  -- A zone as the interface shows it.
  abbrev pub shown_zone : TemperatureZone F → String × F
  shown_zone z = (decode (take 7 (bytes z.label)), z.celsius)

  -- A zone with a number, whose label has no byte 0.
  abbrev pub IsZone : TemperatureZone F → Type 0
  IsZone z = (f.is_nan z.celsius ≡ false) × All (λ b. 0 < b) (bytes z.label)

  present-overwrite :
      (xs : List (TemperatureZone F)) (zs : List F) (ls : List (List ℕ))
      → All IsZone xs
      → length xs ≤ length zs
      → length xs ≤ length ls
      → present decode
          (length xs)
          (overwrite (map (λ z. z.celsius) xs) zs)
          (overwrite (map (λ z. set_label (bytes z.label)) xs) ls)
        ≡ map shown_zone xs
  unfolding present
  present-overwrite [] zs ls h a b = refl
  present-overwrite (x ∷ xs) [] ls h a b = absurd (omega arith)
  present-overwrite (x ∷ xs) (z ∷ zs) [] h a b = absurd (omega arith)
  present-overwrite (x ∷ xs) (z ∷ zs) (l ∷ ls) h a b =
      let rest = present-overwrite xs zs ls h.1 (omega arith) (omega arith) in
      let label = (label_bytes-set_label (bytes x.label) h.0.1).0 in rw (h.0.0, label, rest) refl

  -- Only the entries that were set are shown.
  present-IsPlausible :
      (xs : List (TemperatureZone F)) (zs : List F) (ls : List (List ℕ))
      → AllPlausible xs
      → All
          (λ z. IsPlausible z.1)
          (present decode (length xs) (overwrite (map (λ z. z.celsius) xs) zs) ls)
  unfolding present
  present-IsPlausible [] zs ls h = tt
  present-IsPlausible (x ∷ xs) [] ls h = tt
  present-IsPlausible (x ∷ xs) (z ∷ zs) [] h = tt
  present-IsPlausible (x ∷ xs) (z ∷ zs) (l ∷ ls) h =
      let rest = present-IsPlausible xs zs ls h.1 in
      elim (Bool-cases (f.is_nan x.celsius)) [ inl e ↦ rw e rest | inr e ↦ rw e (h.0, rest) ]

  real-unwrap_or :
      (nan : F) (o : Option F)
      → f.is_nan nan ≡ true
      → AllSome (λ c. f.is_nan c ≡ false) o
      → real (unwrap_or o nan) ≡ o
  real-unwrap_or nan none h a = rw h refl
  real-unwrap_or nan (some c) h a = rw a refl

  -- The interface reads back what the helper published: the temperature of the package, the power and the
  -- limit, each also where it is absent, and the first sixteen zones in their order, with the first seven
  -- bytes of their labels. The record is of the current revision, and fresh until fifteen seconds have
  -- passed. This holds where the values are numbers and no label has a byte 0.
  pub out_of-shown :
      (nan : F) (now later sequence : ℕ) (reading : TemperatureReading F) (power limit : Option F)
      → f.is_nan nan ≡ true
      → AllSome (λ c. f.is_nan c ≡ false) reading.package_c
      → AllSome (λ c. f.is_nan c ≡ false) power
      → AllSome (λ c. f.is_nan c ≡ false) limit
      → All IsZone reading.zones
      → let published = payload (out_of bytes nan now reading power limit) sequence in
        (zone_list decode published ≡ map shown_zone (take max_zones reading.zones))
        × (package_temp published ≡ reading.package_c)
        × (watts published ≡ power)
        × (tjmax published ≡ limit)
        × (helper_is_current published ≡ true)
        × (is_fresh published later ≡ leb (later - now) stale_after_ms)
  unfolding payload out_of zone_list
  out_of-shown nan now later sequence reading power limit hn hc hp hl hz =
      let xs = take max_zones reading.zones in
      let cut = take-min max_zones reading.zones in
      let len = length-take max_zones reading.zones in
      let count : min (min (length reading.zones) max_zones) max_zones ≡ length xs = omega arith in
      (
        rw (cut, count)
            (present-overwrite xs (replicate max_zones nan) (replicate max_zones (replicate 8 0))
              (All-take IsZone max_zones reading.zones hz) (omega arith) (omega arith)),
        real-unwrap_or nan reading.package_c hn hc,
        real-unwrap_or nan power hn hp,
        real-unwrap_or nan limit hn hl,
        refl,
        refl,
      )

  -- Every temperature that the interface can read from a record is plausible.
  abbrev pub IsTrusted : SharedTemperature F → Type 0
  IsTrusted r =
      All (λ z. IsPlausible z.1) (zone_list decode r) × AllSome IsPlausible (package_temp r)

  real-IsPlausible :
      (nan : F) (o : Option F)
      → f.is_nan nan ≡ true
      → AllSome IsPlausible o
      → AllSome IsPlausible (real (unwrap_or o nan))
  real-IsPlausible nan none h a = rw h tt
  real-IsPlausible nan (some c) h a = elim (Bool-cases (f.is_nan c)) [
    | inl e ↦ rw e tt
    | inr e ↦ rw e a
  ]

  out_of-IsTrusted :
      (nan : F) (now : ℕ) (reading : TemperatureReading F) (power limit : Option F)
      → f.is_nan nan ≡ true
      → IsCredible reading
      → IsTrusted (out_of bytes nan now reading power limit)
  unfolding out_of zone_list
  out_of-IsTrusted nan now reading power limit h c =
      let xs = take max_zones reading.zones in
      let cut = take-min max_zones reading.zones in
      let len = length-take max_zones reading.zones in
      let count : min (min (length reading.zones) max_zones) max_zones ≡ length xs = omega arith in
      (
        rw (cut, count)
            (present-IsPlausible xs (replicate max_zones nan)
              (overwrite (map (λ z. set_label (bytes z.label)) xs)
                (replicate max_zones (replicate 8 0)))
              (All-take _ max_zones reading.zones c.1)),
        real-IsPlausible nan reading.package_c h c.0,
      )

module _ {D F : Type 0} ⦃d : Float D⦄ ⦃f : Float F⦄ (bytes : String → List ℕ)
    (decode : List ℕ → String) (nan : F) (as_f32 : D → F) (from_bits : ℕ → F) (affinity : Affinity)
    (execute_on : ℕ → Execute) where
  -- Whatever the drivers answer in whatever passes, the interface reads from the records of the loop only
  -- temperatures between 5 and 125 degrees, of the package and of each zone.
  pub sample_loop-AreTrusted :
      f.is_nan nan ≡ true
      → (limit : Option F) (passes : List Pass) (t : WindowsTemperature D)
      → All
          (IsTrusted bytes decode)
          (sample_loop bytes nan as_f32 from_bits affinity execute_on limit passes t)
  unfolding sample_loop sample
  sample_loop-AreTrusted h limit [] t = tt
  sample_loop-AreTrusted h limit (p ∷ ps) t =
      let after = sample bytes nan as_f32 from_bits affinity execute_on limit p t in
      let rest = sample_loop-AreTrusted h limit ps after.0 in
      let credible = (read-IsCredible from_bits affinity execute_on (source_at p t)).0 in
      let power = (package_watts as_f32 (source_at p t) p.unit p.counter p.now).1 in
      let first : IsTrusted bytes decode after.1 =
        out_of-IsTrusted bytes decode nan p.now _ power limit h credible in
      elim (Bool-cases p.stop) [
        | inl e ↦ rw e tt
        | inr e ↦ elim (Bool-cases (any (λ b. b) p.slices)) [
          | inl stopped ↦ rw (e, stopped) (first, tt)
          | inr going ↦ rw (e, going) (first, rest)
        ]
      ]
