-- ===== src/Prelude/Sort.antt =====
-- A stable sort by a Boolean comparison, as `slice::sort_by` sorts: `le a b` says that the
-- comparison of `a` with `b` is not `Greater`.
use Prim.Native.Nat.{ℕ, zero, suc, ◌+◌, ◌≤◌, ◌<◌}
use mathlib.Core.Option.{some, some-injective}
use mathlib.Core.Path.{◌≡◌, refl, ap, ◌∙◌, subst}
use mathlib.Core.Logic.{inl, inr}
use mathlib.Core.Bool.{Bool, true, false}
use mathlib.Core.List.{List, [], ◌∷◌}
use native.Mathlib.Omega.{arith}
use loadbear.Prelude.Tests.{if◌then◌else◌, Bool-cases}
use loadbear.Prelude.Lists.{length, get_elem?, count_if, count_if-bounded, All, All-get_elem?}

module _ {ℓ} {A : Type ℓ} (le : A → A → Bool) where
  insert_sorted : A → List A → List A
  insert_sorted x [] = x ∷ []
  insert_sorted x (y ∷ ys) = if le x y then x ∷ y ∷ ys else y ∷ insert_sorted x ys

  unfoldable pub sort_by : List A → List A
  unfolding insert_sorted
  sort_by [] = []
  sort_by (x ∷ xs) = insert_sorted x (sort_by xs)

  All-insert : (P : A → Type 0) (x : A) (ys : List A) → P x → All P ys → All P (insert_sorted x ys)
  unfolding insert_sorted
  All-insert P x [] p q = (p, tt)
  All-insert P x (y ∷ ys) p q = elim (Bool-cases (le x y)) [
    | inl e ↦ rw e (p, q)
    | inr e ↦ rw e (q.0, All-insert P x ys p q.1)
  ]

  All_of_insert :
      (P : A → Type 0) (x : A) (ys : List A) → All P (insert_sorted x ys) → P x × All P ys
  unfolding insert_sorted
  All_of_insert P x [] q = q
  All_of_insert P x (y ∷ ys) q = elim (Bool-cases (le x y)) [
    | inl e ↦ rw e at q
    | inr e ↦ let r = rw e at q in let (px, ps) = All_of_insert P x ys r.1 in (px, (r.0, ps))
  ]

  -- Sorting keeps what holds of every element, both ways.
  pub All-sort_by : (P : A → Type 0) (xs : List A) → All P xs → All P (sort_by xs)
  unfolding sort_by
  All-sort_by P [] p = tt
  All-sort_by P (x ∷ xs) p = All-insert P x (sort_by xs) p.0 (All-sort_by P xs p.1)

  pub All_of_sort_by : (P : A → Type 0) (xs : List A) → All P (sort_by xs) → All P xs
  unfolding sort_by
  All_of_sort_by P [] p = tt
  All_of_sort_by P (x ∷ xs) p =
      let (px, ps) = All_of_insert P x (sort_by xs) p in (px, All_of_sort_by P xs ps)

  length-insert : (x : A) (ys : List A) → length (insert_sorted x ys) ≡ suc (length ys)
  unfolding insert_sorted
  length-insert x [] = refl
  length-insert x (y ∷ ys) = ground (arith, length-insert x ys)

  pub length-sort_by : (xs : List A) → length (sort_by xs) ≡ length xs
  unfolding sort_by
  length-sort_by [] = refl
  length-sort_by (x ∷ xs) = length-insert x (sort_by xs) ∙ ap suc (length-sort_by xs)

  count_if-insert :
      (p : A → Bool) (x : A) (ys : List A) → count_if p (insert_sorted x ys) ≡ count_if p (x ∷ ys)
  unfolding insert_sorted
  count_if-insert p x [] = refl
  count_if-insert p x (y ∷ ys) = ground (arith, count_if-insert p x ys)

  -- Sorting keeps how many elements pass a test.
  pub count_if-sort_by : (p : A → Bool) (xs : List A) → count_if p (sort_by xs) ≡ count_if p xs
  unfolding sort_by
  count_if-sort_by p [] = refl
  count_if-sort_by p (x ∷ xs) =
      ground (arith, count_if-insert p x (sort_by xs), count_if-sort_by p xs)

  -- Each element precedes all that follow it.
  abbrev pub IsSortedBy : List A → Type 0
  IsSortedBy [] = Unit
  IsSortedBy (x ∷ xs) = All (λ y. le x y ≡ true) xs × IsSortedBy xs

  module _ (total : (a b : A) → le a b ≡ false → le b a ≡ true)
      (trans : (a b c : A) → le a b ≡ true → le b c ≡ true → le a c ≡ true) where
    All-trans :
        (x y : A) (ys : List A)
        → le x y ≡ true
        → All (λ z. le y z ≡ true) ys
        → All (λ z. le x z ≡ true) ys
    All-trans x y [] h p = tt
    All-trans x y (z ∷ zs) h p = (trans x y z h p.0, All-trans x y zs h p.1)

    insert-IsSortedBy : (x : A) (ys : List A) → IsSortedBy ys → IsSortedBy (insert_sorted x ys)
    unfolding insert_sorted
    insert-IsSortedBy x [] s = (tt, tt)
    insert-IsSortedBy x (y ∷ ys) s = elim (Bool-cases (le x y)) [
      | inl e ↦ rw e ((e, All-trans x y ys e s.0), s)
      | inr e ↦
          rw e (All-insert (λ z. le y z ≡ true) x ys (total x y e) s.0, insert-IsSortedBy x ys s.1)
    ]

    pub sort_by-IsSortedBy : (xs : List A) → IsSortedBy (sort_by xs)
    unfolding sort_by
    sort_by-IsSortedBy [] = tt
    sort_by-IsSortedBy (x ∷ xs) = insert-IsSortedBy x (sort_by xs) (sort_by-IsSortedBy xs)

    head_le :
        (bound x : A) (xs : List A)
        → All (λ y. le x y ≡ true) xs
        → 0 < count_if (λ y. le y bound) (x ∷ xs)
        → le x bound ≡ true
    head_le bound x [] s h = ground arith
    head_le bound x (y ∷ ys) s h = elim (Bool-cases (le y bound)) [
      | inl t ↦ trans x y bound s.0 t
      | inr t ↦ head_le bound x ys s.1 (ground arith)
    ]

    -- Where more elements than the index are not above a bound, neither is the one at the index.
    pub sorted-le :
        (bound : A) (xs : List A) (i : ℕ) (a : A)
        → IsSortedBy xs
        → i < count_if (λ x. le x bound) xs
        → get_elem? xs i ≡ some a
        → le a bound ≡ true
    sorted-le bound [] i a s h e = absurd (omega arith)
    sorted-le bound (x ∷ xs) zero a s h e =
        subst (λ y. le y bound ≡ true) (some-injective _ _ e) (head_le bound x xs s.0 h)
    sorted-le bound (x ∷ xs) (suc i) a s h e = sorted-le bound xs i a s.1 (ground arith) e

    -- Where all elements but as many as the index are not below a bound, neither is the one at it.
    pub le-sorted :
        (bound : A) (xs : List A) (i : ℕ) (a : A)
        → IsSortedBy xs
        → length xs ≤ i + count_if (le bound) xs
        → get_elem? xs i ≡ some a
        → le bound a ≡ true
    le-sorted bound [] i a s h e = absurd (cc (e))
    le-sorted bound (x ∷ xs) zero a s h e =
        subst (λ y. le bound y ≡ true) (some-injective _ _ e)
          (ground (arith, count_if-bounded (le bound) xs))
    le-sorted bound (x ∷ xs) (suc i) a s h e = elim (Bool-cases (le bound x)) [
      | inl t ↦ trans bound x a t (All-get_elem? (λ y. le x y ≡ true) xs i a s.0 e)
      | inr t ↦ le-sorted bound xs i a s.1 (ground arith) e
    ]
