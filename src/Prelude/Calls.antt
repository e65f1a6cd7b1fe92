-- ===== src/Prelude/Calls.antt =====
-- A part of the program that calls the system: the calls that it makes, in order, and its result. What
-- the system answers is an argument of that part, or stands in the calls.
use mathlib.Core.Path.{◌≡◌, refl}
use mathlib.Core.Bool.{Bool, true, false}
use mathlib.Core.List.{List, [], ◌∷◌, ◌++◌}
use loadbear.Prelude.Lists.{All, All-append}

pub data Result (E A : Type 0) : Type 0 where
  ok : A → Result E A
  err : E → Result E A

abbrev pub Calls : Type 0 → Type 0 → Type 0 → Type 0
Calls C E A = List C × Result E A

module _ {C E : Type 0} where
  -- `?`: a failure ends the function.
  infixl 5 ◌>>=◌ ◌>>◌
  abbrev pub ◌>>=◌ : {A B : Type 0} → Calls C E A → (A → Calls C E B) → Calls C E B
  (calls, ok a) >>= f = (calls ++ (f a).0, (f a).1)
  (calls, err e) >>= f = (calls, err e)

  abbrev pub ◌>>◌ : {B : Type 0} → Calls C E (Unit {0}) → Calls C E B → Calls C E B
  m >> k = m >>= λ _. k

  abbrev pub pure : {A : Type 0} → A → Calls C E A
  pure a = ([], ok a)

  abbrev pub call : C → Calls C E (Unit {0})
  call c = (c ∷ [], ok tt)

  -- A test that fails with this error.
  abbrev pub guard : Bool → E → Calls C E (Unit {0})
  guard true e = ([], ok tt)
  guard false e = ([], err e)

abbrev pub is_ok : {E A : Type 0} → Result E A → Bool
is_ok (ok a) = true
is_ok (err e) = false

-- What holds of all calls of the parts holds of all calls.
pub bind-All :
    {C E A B : Type 0} (P : C → Type 0) (m : Calls C E A) (f : A → Calls C E B)
    → All P m.0
    → ((a : A) → All P (f a).0)
    → All P (m >>= f).0
bind-All P (calls, ok a) f h k = All-append P calls (f a).0 h (k a)
bind-All P (calls, err e) f h k = h

pub guard-All : {C E : Type 0} (P : C → Type 0) (b : Bool) (e : E) → All P (guard {C = C} b e).0
guard-All P true e = tt
guard-All P false e = tt

-- A call whose answer decides.
module _ {C E B : Type 0} (c : C) (b : Bool) (e : E) (k : Calls C E B) where
  pub guard-true : b ≡ true → ((call c >> guard b e) >> k) ≡ (c ∷ k.0, k.1)
  guard-true h = rw h refl

  pub guard-false : b ≡ false → ((call c >> guard b e) >> k) ≡ (c ∷ [], err e)
  guard-false h = rw h refl

module _ {C E A B : Type 0} where
  pub bind-ok :
      (m : Calls C E A) (f : A → Calls C E B) (b : B)
      → (m >>= f).1 ≡ ok b
      → (a : A) × (m.1 ≡ ok a) × ((f a).1 ≡ ok b)
  bind-ok (calls, ok a) f b h = (a, refl, h)
  bind-ok (calls, err e) f b h = absurd (cc (h))

  pub bind_of_ok :
      (m : Calls C E A) (f : A → Calls C E B) (a : A) (b : B)
      → m.1 ≡ ok a
      → (f a).1 ≡ ok b
      → (m >>= f).1 ≡ ok b
  bind_of_ok (calls, ok a') f a b h k = let e : a' ≡ a = cc (h) in rw e k
  bind_of_ok (calls, err e) f a b h k = absurd (cc (h))
