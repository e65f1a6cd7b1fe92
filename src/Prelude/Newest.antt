-- ===== src/Prelude/Newest.antt =====
-- The last elements of a list, and what they become when one more is put at the end.
use Prim.Native.Nat.{ℕ, zero, suc, ◌-◌, ◌≤◌, ◌<◌}
use mathlib.Core.Path.{◌≡◌, refl, sym, ap, ◌∙◌}
use mathlib.Core.Logic.{inl, inr}
use mathlib.Core.List.{List, [], ◌∷◌, ◌++◌}
use native.Mathlib.Omega.{arith}
use loadbear.Prelude.Tests.{if◌then◌else◌, ◌==◌, Bool-cases}
use loadbear.Prelude.Lists.{length, length-append, length-drop, drop}

module _ {A : Type 0} where
  drop-suc : (n : ℕ) (xs : List A) → drop 1 (drop n xs) ≡ drop (suc n) xs
  drop-suc zero xs = refl
  drop-suc (suc n) [] = refl
  drop-suc (suc n) (x ∷ xs) = drop-suc n xs

  drop-append : (n : ℕ) (xs ys : List A) → n ≤ length xs → drop n (xs ++ ys) ≡ drop n xs ++ ys
  drop-append zero xs ys h = refl
  drop-append (suc n) [] ys h = absurd (omega arith)
  drop-append (suc n) (x ∷ xs) ys h = drop-append n xs ys (omega arith)

  -- The last so many elements.
  abbrev pub last_of : ℕ → List A → List A
  last_of n xs = drop (length xs - n) xs

  -- The list without its first element, where it has this length.
  abbrev pub without_oldest : ℕ → List A → List A
  without_oldest n xs = if length xs == n then drop 1 xs else xs

  pub length-last_of : (n : ℕ) (xs : List A) → length (last_of n xs) ≤ n
  length-last_of n xs = omega (arith, length-drop (length xs - n) xs)

  pub last_of-append :
      (n : ℕ) (xs : List A) (x : A)
      → 0 < n
      → without_oldest n (last_of n xs) ++ x ∷ [] ≡ last_of n (xs ++ x ∷ [])
  last_of-append n xs x pos = elim (Bool-cases (length (last_of n xs) == n)) [
    | inl e ↦
        let k = length xs - n in
        let next : length (xs ++ x ∷ []) - n ≡ suc k =
          ground (arith, length-append xs (x ∷ []), length-drop k xs) in
        rw (e, next)
          (ap (λ l. l ++ x ∷ []) (drop-suc k xs)
            ∙ sym (drop-append (suc k) xs (x ∷ []) (ground (arith, length-drop k xs))))
    | inr e ↦
        let room : length xs < n = ground (arith, length-drop (length xs - n) xs) in
        let now : length xs - n ≡ 0 = omega arith in
        let next : length (xs ++ x ∷ []) - n ≡ 0 = omega (arith, length-append xs (x ∷ [])) in
        rw (e, now, next)
  ]
