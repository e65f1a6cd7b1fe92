-- ===== src/Prelude/Lists.antt =====
-- Lists measured and indexed by native numbers, iterators by Boolean tests, and predicates on lists.
use Prim.Native.Nat.{ℕ, zero, suc, ◌+◌, ◌-◌, ◌≤◌, ◌<◌}
use mathlib.Core.Path.{◌≡◌, refl, subst}
use mathlib.Core.Logic.{◌⊎◌, inl, inr}
use mathlib.Core.Bool.{Bool, true, false, ◌||◌}
use mathlib.Core.List.{List, [], ◌∷◌, ◌++◌}
use mathlib.Core.Option.{Option, none, some, some-injective}
use native.Mathlib.Omega.{arith}
use loadbear.Prelude.Tests.{if◌then◌else◌, Option-cases, ◌>>=◌}

module _ {ℓ} {A : Type ℓ} where
  abbrev pub length : List A → ℕ
  length [] = 0
  length (x ∷ xs) = suc (length xs)

  abbrev pub get_elem? : List A → ℕ → Option A
  get_elem? [] i = none
  get_elem? (x ∷ xs) zero = some x
  get_elem? (x ∷ xs) (suc i) = get_elem? xs i

  abbrev pub drop : ℕ → List A → List A
  drop zero xs = xs
  drop (suc n) [] = []
  drop (suc n) (x ∷ xs) = drop n xs

  -- `Iterator::filter`, by a Boolean test
  abbrev pub filter : (A → Bool) → List A → List A
  filter p [] = []
  filter p (x ∷ xs) = if p x then x ∷ filter p xs else filter p xs

  -- `Iterator::filter_map`
  abbrev pub filter_map {κ} : {B : Type κ} → (A → Option B) → List A → List B
  filter_map f [] = []
  filter_map f (x ∷ xs) = elim (f x) [ none ↦ filter_map f xs | some b ↦ b ∷ filter_map f xs ]

  -- `Iterator::find`
  abbrev pub find : (A → Bool) → List A → Option A
  find p [] = none
  find p (x ∷ xs) = if p x then some x else find p xs

  -- `Iterator::any`
  abbrev pub any : (A → Bool) → List A → Bool
  any p [] = false
  any p (x ∷ xs) = p x || any p xs

  -- How many elements pass a test.
  abbrev pub count_if : (A → Bool) → List A → ℕ
  count_if p [] = 0
  count_if p (x ∷ xs) = if p x then suc (count_if p xs) else count_if p xs

  -- A predicate holds of every element, or of some element.
  abbrev pub All : (A → Type 0) → List A → Type 0
  All P [] = Unit
  All P (x ∷ xs) = P x × All P xs

  abbrev pub Any : (A → Type 0) → List A → Type 0
  Any P [] = ⊥
  Any P (x ∷ xs) = P x ⊎ Any P xs

  pub length-append : (xs ys : List A) → length (xs ++ ys) ≡ length xs + length ys
  length-append [] ys = omega arith
  length-append (x ∷ xs) ys = omega (arith, length-append xs ys)

  pub length-drop : (n : ℕ) (xs : List A) → length (drop n xs) ≡ length xs - n
  length-drop zero xs = omega arith
  length-drop (suc n) [] = omega arith
  length-drop (suc n) (x ∷ xs) = omega (arith, length-drop n xs)

  pub All-append : (P : A → Type 0) (xs ys : List A) → All P xs → All P ys → All P (xs ++ ys)
  All-append P [] ys p q = q
  All-append P (x ∷ xs) ys p q = (p.0, All-append P xs ys p.1 q)

  pub All_of_append : (P : A → Type 0) (xs ys : List A) → All P (xs ++ ys) → All P xs × All P ys
  All_of_append P [] ys p = (tt, p)
  All_of_append P (x ∷ xs) ys p = let (l, r) = All_of_append P xs ys p.1 in ((p.0, l), r)

  pub All_map : (P Q : A → Type 0) → ((x : A) → P x → Q x) → (xs : List A) → All P xs → All Q xs
  All_map P Q f [] p = tt
  All_map P Q f (x ∷ xs) p = (f x p.0, All_map P Q f xs p.1)

  pub All-drop : (P : A → Type 0) (n : ℕ) (xs : List A) → All P xs → All P (drop n xs)
  All-drop P zero xs p = p
  All-drop P (suc n) [] p = tt
  All-drop P (suc n) (x ∷ xs) p = All-drop P n xs p.1

  pub All_zip : (P Q : A → Type 0) (xs : List A) → All P xs → All Q xs → All (λ x. P x × Q x) xs
  All_zip P Q [] p q = tt
  All_zip P Q (x ∷ xs) p q = ((p.0, q.0), All_zip P Q xs p.1 q.1)

  pub All-get_elem? :
      (P : A → Type 0) (xs : List A) (i : ℕ) (a : A) → All P xs → get_elem? xs i ≡ some a → P a
  All-get_elem? P [] i a p e = absurd (cc (e))
  All-get_elem? P (x ∷ xs) zero a p e = subst P (some-injective _ _ e) p.0
  All-get_elem? P (x ∷ xs) (suc i) a p e = All-get_elem? P xs i a p.1 e

  pub get_elem?-is_some :
      (xs : List A) (i : ℕ) → i < length xs → (a : A) × (get_elem? xs i ≡ some a)
  get_elem?-is_some [] i h = absurd (omega arith)
  get_elem?-is_some (x ∷ xs) zero h = (x, refl)
  get_elem?-is_some (x ∷ xs) (suc i) h = get_elem?-is_some xs i (omega arith)

  pub count_if-bounded : (p : A → Bool) (xs : List A) → count_if p xs ≤ length xs
  count_if-bounded p [] = omega arith
  count_if-bounded p (x ∷ xs) = ground (arith, count_if-bounded p xs)

  pub count_if-append :
      (p : A → Bool) (xs ys : List A) → count_if p (xs ++ ys) ≡ count_if p xs + count_if p ys
  count_if-append p [] ys = omega arith
  count_if-append p (x ∷ xs) ys = ground (arith, count_if-append p xs ys)

  pub filter_map-append {κ} :
      {B : Type κ} (f : A → Option B) (xs ys : List A)
      → filter_map f (xs ++ ys) ≡ filter_map f xs ++ filter_map f ys
  filter_map-append f [] ys = refl
  filter_map-append f (x ∷ xs) ys = let ih = filter_map-append f xs ys in grind (arith, ih)

  pub count_if_mono :
      (p q : A → Bool)
      → ((x : A) → p x ≡ true → q x ≡ true)
      → (xs : List A) → count_if p xs ≤ count_if q xs
  count_if_mono p q f [] = omega arith
  count_if_mono p q f (x ∷ xs) = ground (arith, count_if_mono p q f xs, f x)

  -- A fact about every element meets one about some element.
  pub All_Any : (P Q : A → Type 0) (xs : List A) → All P xs → Any Q xs → Any (λ x. P x × Q x) xs
  All_Any P Q [] p q = elim q [ ]
  All_Any P Q (x ∷ xs) p (inl q) = inl (p.0, q)
  All_Any P Q (x ∷ xs) p (inr q) = inr (All_Any P Q xs p.1 q)

  -- Every element is related to some element, where the relation is reflexive.
  pub All_Any_refl :
      (R : A → A → Type 0) → ((x : A) → R x x) → (xs : List A) → All (λ x. Any (λ y. R y x) xs) xs
  All_Any_refl R r [] = tt
  All_Any_refl R r (x ∷ xs) = (inl (r x), All_map _ _ (λ y h. inr h) xs (All_Any_refl R r xs))

  pub Any-map : (P Q : A → Type 0) → ((x : A) → P x → Q x) → (xs : List A) → Any P xs → Any Q xs
  Any-map P Q f [] p = elim p [ ]
  Any-map P Q f (x ∷ xs) (inl p) = inl (f x p)
  Any-map P Q f (x ∷ xs) (inr p) = inr (Any-map P Q f xs p)

  pub Any-append : (P : A → Type 0) (xs ys : List A) → Any P xs → Any P (xs ++ ys)
  Any-append P [] ys m = elim m [ ]
  Any-append P (x ∷ xs) ys (inl m) = inl m
  Any-append P (x ∷ xs) ys (inr m) = inr (Any-append P xs ys m)

  pub Any-last : (P : A → Type 0) (xs : List A) (x : A) → P x → Any P (xs ++ x ∷ [])
  Any-last P [] x p = inl p
  Any-last P (y ∷ xs) x p = inr (Any-last P xs x p)

  -- What follows from any one element follows from some element.
  pub Any_elim {κ} :
      {R : Type κ} (P : A → Type 0) → ((x : A) → P x → R) → (xs : List A) → Any P xs → R
  Any_elim P f [] p = elim p [ ]
  Any_elim P f (x ∷ xs) (inl p) = f x p
  Any_elim P f (x ∷ xs) (inr p) = Any_elim P f xs p

module _ {ℓ κ} {A : Type ℓ} {B : Type κ} (f : A → Option B) where
  pub filter_map-cons_none :
      (x : A) (xs : List A) → f x ≡ none → filter_map f (x ∷ xs) ≡ filter_map f xs
  filter_map-cons_none x xs e = rw (e, filter_map)

  pub filter_map-cons_some :
      (x : A) (xs : List A) {b : B} → f x ≡ some b → filter_map f (x ∷ xs) ≡ b ∷ filter_map f xs
  filter_map-cons_some x xs e = rw (e, filter_map)

-- What holds of the value, where there is one.
abbrev pub AllSome {ℓ} : {A : Type ℓ} → (A → Type 0) → Option A → Type 0
AllSome P none = Unit
AllSome P (some a) = P a

pub AllSome-bind {ℓ κ} :
    {A : Type ℓ} {B : Type κ} (P : B → Type 0) (o : Option A) (g : A → Option B)
    → ((a : A) → AllSome P (g a))
    → AllSome P (o >>= g)
AllSome-bind P none g h = tt
AllSome-bind P (some a) g h = h a

pub All-filter_map {ℓ κ} :
    {A : Type ℓ} {B : Type κ} (P : B → Type 0) (f : A → Option B)
    → ((a : A) → AllSome P (f a))
    → (xs : List A) → All P (filter_map f xs)
All-filter_map P f h [] = tt
All-filter_map P f h (x ∷ xs) = elim (Option-cases (f x)) [
  | inl e ↦ rw (filter_map-cons_none f x xs e) (All-filter_map P f h xs)
  | inr (b, e) ↦
      rw (filter_map-cons_some f x xs e) (subst (AllSome P) e (h x), All-filter_map P f h xs)
]
