-- ===== src/Core/Types/Worst.antt =====
-- The worst resource of a stall signal, against the values of all three.
use loadbear.Prelude.{◌≡◌, true, false, Option, none, some, List, [], ◌∷◌, arith, All}
use loadbear.Float.{Float}
use loadbear.Float.Laws.{IsOrdered, le_of_not_lt}
use loadbear.Core.Types.{Resource, cpu, memory, io, StallSignal, raise, worst}

abbrev pub resources : List Resource
resources = cpu ∷ memory ∷ io ∷ []

module _ {F : Type 0} ⦃f : Float F⦄ where
  -- What the signal says of one resource; nothing for a disk that is not known yet.
  abbrev pub level : StallSignal F → Resource → Option F
  level s cpu = some s.cpu
  level s memory = some s.memory
  level s io = s.io

  abbrev pub AtMost : Option F → F → Type 0
  AtMost none x = Unit
  AtMost (some y) x = f.le y x ≡ true

  abbrev pub IsNumber : Option F → Type 0
  IsNumber none = Unit
  IsNumber (some y) = f.is_nan y ≡ false

  -- The value reported is that of the resource reported.
  pub level-worst : (s : StallSignal F) → level s (worst s).0 ≡ some (worst s).1
  unfolding worst
  level-worst s = ground arith

  -- Each comparison leaves a number that bounds the old one and the new one.
  raise_bounds :
      IsOrdered F
      → (r : Resource) (x : F) (w : Resource × F) → f.is_nan x ≡ false
      → f.is_nan w.1 ≡ false
      → (f.is_nan (raise r x w).1 ≡ false)
        × (f.le x (raise r x w).1 ≡ true)
        × (f.le w.1 (raise r x w).1 ≡ true)
  unfolding raise
  raise_bounds laws r x w p q = ground (
    arith,
    laws.le_refl x p,
    laws.le_refl w.1 q,
    laws.le_of_lt w.1 x,
    le_of_not_lt laws w.1 x q p,
  )

  worst_bounds :
      IsOrdered F
      → (c m : F) (i : Option F) → f.is_nan c ≡ false
      → f.is_nan m ≡ false
      → IsNumber i
      → let s : StallSignal F = record { cpu = c; memory = m; io = i } in
        All (λ r. AtMost (level s r) (worst s).1) resources
  unfolding worst
  worst_bounds laws c m none p q _ =
      let (_, b, a) = raise_bounds laws memory m (cpu, c) q p in (a, (b, (tt, tt)))
  worst_bounds laws c m (some x) p q r =
      let w : Resource × F = (cpu, c) in
      let (n, b, a) = raise_bounds laws memory m w q p in
      let (_, d, e) = raise_bounds laws io x (raise memory m w) r n in
      (laws.le_trans _ _ _ a e, (laws.le_trans _ _ _ b e, (d, tt)))

  -- With ordered comparisons and no NaN in the signal, `worst` names a resource whose level is
  -- known and is the value returned, and no resource whose level is known has a greater one. An
  -- unknown disk is never named.
  pub worst-IsMaximum :
      (laws : IsOrdered F) (s : StallSignal F)
      → All (λ r. IsNumber (level s r)) resources
      → (level s (worst s).0 ≡ some (worst s).1)
        × All (λ r. AtMost (level s r) (worst s).1) resources
  worst-IsMaximum laws s n =
      (level-worst s, worst_bounds laws s.cpu s.memory s.io n.0 n.1.0 n.1.1.0)
