-- ===== src/Service/PmTable.antt =====
-- crates/loadbear-service/src/pmtable.rs: `dump`, by its exit code and by the rows of its table. What the
-- library and its functions answer is a parameter. What is printed else is left out.
pub mod Snapshots
mod Examples
use loadbear.Prelude.{
  ℕ, zero, suc, ◌+◌, ◌/◌, ◌%◌, ◌^◌, Bool, true, false, ◌&&◌, ◌||◌, not, String, Option, none, some,
  List, [], ◌∷◌, map, foldl, any, length, ltb, if◌then◌else◌, get_elem?, ◌>>=◌,
}
use loadbear.Prelude.Calls.{Result}
use loadbear.Float.{Float}
use loadbear.Sensors.Temperature.Registers.{Answer, ok, err, Execute}

abbrev pub samples : ℕ
samples = 10

-- A value that moved: its place, the least and the greatest that it was, and the last.
pub record Row (F : Type 0) : Type 0 where
  pub place : ℕ
  pub least : F
  pub greatest : F
  pub last : F

-- What the library answers: whether it opens and takes the module, the address of the table, and the
-- functions at each snapshot.
pub record Smu : Type 0 where
  pub opens : Bool
  pub loads : Bool
  pub resolved : Answer
  pub at : ℕ → Execute

-- How `dump` ends: with an exit code and the rows, or with a panic.
pub data Dumped (F : Type 0) : Type 0 where
  exited : ℕ → List (Row F) → Dumped F
  panicked : Dumped F

-- `min` of an iterator, where there is an element.
abbrev pub shortest : List ℕ → ℕ
shortest [] = 0
shortest (n ∷ ns) = foldl (λ a b. if ltb b a then b else a) n ns

-- The column at a place, where every snapshot reaches it: `s[i]` panics elsewhere.
pub column : {F : Type 0} → ℕ → List (List F) → Option (List F)
column i [] = some []
column i (s ∷ series) = do v ← get_elem? s i; vs ← column i series; some (v ∷ vs)

-- The snapshots that were taken, or none where a refresh or a read fails.
pub taken : {A : Type 0} → ℕ → (ℕ → Option A) → Option (List A)
taken zero shot = some []
taken (suc n) shot =
    let rest = taken n (λ i. shot (suc i)) in do s ← shot 0; ss ← rest; some (s ∷ ss)

-- The refresh of the table and the read of it.
abbrev pub words_at : Execute → Option (List ℕ)
words_at execute = elim (execute "ioctl_update_pm_table" [] 0) [
  | err e ↦ none
  | ok ws ↦ elim (execute "ioctl_read_pm_table" [] 1024) [ err e ↦ none | ok words ↦ some words ]
]

module _ {F : Type 0} (from_bits : ℕ → F) where
  -- Both halves of each word, the low one first.
  pub floats : List ℕ → List F
  floats [] = []
  floats (w ∷ words) = from_bits (w % 2 ^ 32) ∷ from_bits (w / 2 ^ 32 % 2 ^ 32) ∷ floats words

module _ {F : Type 0} ⦃f : Float F⦄ (infinity negative_infinity : F) (min_float : F → F → F) where
  last_of : F → List F → F
  last_of x [] = x
  last_of x (y ∷ ys) = last_of y ys

  -- The row of a place, where its values are finite, have the size of a power and moved.
  pub row : ℕ → List F → Option (Row F)
  unfolding last_of
  row i vals =
      let least = foldl min_float infinity vals in
      let greatest = foldl f.maximum negative_infinity vals in
      if any (λ v. not (f.is_finite v)) vals
      then none
      else if not (f.le (f.decimal 2 1) least && f.le least (f.decimal 650 1))
          || f.lt (f.decimal 650 1) greatest
      then none
      else if f.lt (f.sub greatest least) (f.decimal 75 2)
      then none
      else some
          (record { place = i; least = least; greatest = greatest; last = last_of infinity vals })

  -- The loop over so many places, from this one on.
  pub rows : ℕ → ℕ → List (List F) → Option (List (Row F))
  unfolding column row
  rows zero i series = some []
  rows (suc n) i series = do
    vals ← column i series
    rest ← rows n (suc i) series
    some (elim (row i vals) [ none ↦ rest | some r ↦ r ∷ rest ])

  -- The table, and the two places that are printed whatever they did.
  pub printed : List (List F) → Option (List (Row F))
  unfolding rows column
  printed series = do
    found ← rows (shortest (map length series)) 0 series
    first ← column 0 series
    second ← column 1 series
    some found

abbrev ended : {F : Type 0} → Option (List (Row F)) → Dumped F
ended none = panicked
ended (some found) = exited 0 found

module _ {F : Type 0} ⦃f : Float F⦄ (from_bits : ℕ → F) (infinity negative_infinity : F)
    (min_float : F → F → F) where
  pub sampled : Option (List (List ℕ)) → Dumped F
  unfolding printed floats
  sampled none = exited 1 []
  sampled (some series) =
      ended (printed infinity negative_infinity min_float (map (floats from_bits) series))

  resolved_as : Answer → Option (List (List ℕ)) → Dumped F
  unfolding sampled
  resolved_as (err e) series = exited 1 []
  resolved_as (ok ws) series = sampled series

  pub dump : Smu → Dumped F
  unfolding resolved_as taken
  dump smu =
      if not smu.opens
      then exited 1 []
      else if not smu.loads
      then exited 1 []
      else resolved_as smu.resolved (taken samples (λ i. words_at (smu.at i)))
