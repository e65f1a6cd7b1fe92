-- ===== src/Sensors/Docker/Percent.antt =====
-- The figures of the containers that are read.
use loadbear.Prelude.{
  ℕ, ◌<◌, ◌≡◌, refl, inl, inr, String, Option, none, some, List, [], ltb, leb, ◌==◌, chars, ◌-◌,
  ◌||◌, All, AllSome, AllSome-bind, All-filter_map, Bool-cases, Option-cases, arith,
}
use loadbear.Float.{Float, zero_float}
use loadbear.Float.Laws.{IsOrdered, IsCast, IsWithin, clamp-IsWithin, cast-IsWithin}
use loadbear.Core.Types.{ContainerReading}
use loadbear.Sensors.Docker.Json.{array_items, string, nested_u64}
use loadbear.Sensors.Docker.{
  list_path, percent_of, figures, cpu_percent, above_zero, container, container_of, containers_in,
  read_containers,
}

-- A limit that is known is above zero.
abbrev pub IsLimit : Option ℕ → Type 0
IsLimit none = Unit
IsLimit (some l) = 0 < l

-- A percentage, or NaN, and a limit that is none or above zero.
abbrev pub IsSound : {F : Type 0} → ⦃f : Float F⦄ → ContainerReading F → Type 0
IsSound ⦃f⦄ c = IsWithin zero_float (f.decimal 1000 1) c.cpu_percent × IsLimit c.memory_limit_bytes

module _ {D F : Type 0} ⦃d : Float D⦄ ⦃f : Float F⦄ (as_f32 : D → F) (dlaws : IsOrdered D)
    (flaws : IsOrdered F) (cast : IsCast D F as_f32) where
  zero-IsWithin : IsWithin zero_float (f.decimal 1000 1) zero_float
  zero-IsWithin =
      inr (flaws.le_refl _ (flaws.decimal_number 0 1), flaws.decimal_mono 0 1000 1 (omega arith))

  percent_of-IsWithin :
      (total pre_total system pre_system : ℕ)
      → IsWithin zero_float (f.decimal 1000 1) (percent_of as_f32 total pre_total system pre_system)
  unfolding percent_of
  percent_of-IsWithin total pre_total system pre_system =
      elim (Bool-cases (pre_total == 0 || pre_system == 0 || leb system pre_system)) [
        | inl e ↦ rw e zero-IsWithin
        | inr e ↦ elim (Bool-cases (d.le (d.of_ℕ (system - pre_system)) zero_float)) [
          | inl k ↦ rw (e, k) zero-IsWithin
          | inr k ↦
              rw (e, k)
                (cast-IsWithin as_f32 cast 0 100 _ (omega arith) (omega arith) (
                  clamp-IsWithin dlaws _ zero_float (d.decimal 1000 1)
                    (dlaws.decimal_mono 0 1000 1 (omega arith))))
        ]
      ]

  figures-IsWithin :
      (a b c e : Option ℕ) → IsWithin zero_float (f.decimal 1000 1) (figures as_f32 a b c e)
  unfolding figures
  figures-IsWithin none b c e = zero-IsWithin
  figures-IsWithin (some x) none c e = zero-IsWithin
  figures-IsWithin (some x) (some y) none e = zero-IsWithin
  figures-IsWithin (some x) (some y) (some z) none = zero-IsWithin
  figures-IsWithin (some x) (some y) (some z) (some w) = percent_of-IsWithin x y z w

  above_zero-IsLimit : (o : Option ℕ) → IsLimit (above_zero o)
  above_zero-IsLimit none = tt
  above_zero-IsLimit (some l) = elim (Bool-cases (ltb 0 l)) [
    | inl e ↦ rw e (ground arith)
    | inr e ↦ rw e tt
  ]

  container-IsSound :
      (text : List ℕ → String) (id name : List ℕ) (o : Option (List ℕ))
      → IsSound (container as_f32 text id name o)
  unfolding container cpu_percent
  container-IsSound text id name none = (zero-IsWithin, tt)
  container-IsSound text id name (some s) =
      (figures-IsWithin _ _ _ _, above_zero-IsLimit (nested_u64 s "memory_stats" "limit"))

  container_of-IsSound :
      (text : List ℕ → String) (get : List ℕ → Option (List ℕ)) (entry : List ℕ)
      → AllSome IsSound (container_of as_f32 text get entry)
  unfolding container_of
  container_of-IsSound text get entry =
      AllSome-bind IsSound (string entry (chars "Id")) _ (λ id. container-IsSound text id _ _)

  -- Whatever the engine answers, every container that is read has a share between 0 and 100, or NaN, and
  -- a limit that is above zero or none; and no container is read where the engine gives no list.
  pub read_containers-AreSound :
      (text : List ℕ → String) (get : List ℕ → Option (List ℕ))
      → All IsSound (read_containers as_f32 text get)
        × (get list_path ≡ none → read_containers as_f32 text get ≡ [])
  unfolding read_containers containers_in
  read_containers-AreSound text get = elim (Option-cases (get list_path)) [
    | inl n ↦ rw n (tt, λ e. refl)
    | inr (l, n) ↦ rw n (
      All-filter_map IsSound _ (container_of-IsSound text get) (array_items l),
      λ e. absurd (cc (e)),
    )
  ]
