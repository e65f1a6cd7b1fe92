-- ===== src/Sensors/Docker/Json/Items.antt =====
-- The objects of an array, as they are written and as they are found.
use loadbear.Prelude.{ℕ, suc, ◌≡◌, true, false, some, List, [], ◌∷◌, ◌++◌, ◌==◌, pos}
use loadbear.Sensors.Docker.Json.{Scan, unscanned}

-- A character inside a string: one that stands for itself, or one behind a backslash.
pub data Letter : Type 0 where
  raw : (c : ℕ) → (c == b'\\') ≡ false → (c == b'"') ≡ false → Letter
  behind : ℕ → Letter

-- What stands between the braces of an object: characters other than braces and quotes, strings, and
-- objects.
pub data Inner : Type 0 where
  done : Inner
  plain : (c : ℕ) → (c == b'"') ≡ false → (c == b'{') ≡ false → (c == b'}') ≡ false → Inner → Inner
  quote : List Letter → Inner → Inner
  object : Inner → Inner → Inner

abbrev pub letters : List Letter → List ℕ
letters [] = []
letters (raw c p q ∷ ls) = c ∷ letters ls
letters (behind c ∷ ls) = b'\\' ∷ c ∷ letters ls

abbrev pub inner : Inner → List ℕ
inner done = []
inner (plain c p q r i) = c ∷ inner i
inner (quote ls i) = b'"' ∷ (letters ls ++ b'"' ∷ inner i)
inner (object a i) = b'{' ∷ (inner a ++ b'}' ∷ inner i)

-- An object, and objects in an array.
abbrev pub braced : Inner → List ℕ
braced i = b'{' ∷ (inner i ++ b'}' ∷ [])

abbrev pub listed : List Inner → List ℕ
listed [] = b']' ∷ []
listed (i ∷ is') = b',' ∷ (braced i ++ listed is')

abbrev pub objects : List Inner → List (List ℕ)
objects [] = []
objects (i ∷ is') = braced i ∷ objects is'

-- The state inside an object, at this depth less one, with this text since its start.
abbrev inside : List (List ℕ) → ℕ → List ℕ → Scan
inside items n s = record {
  items = items;
  depth = pos (suc n);
  start = some s;
  in_string = false;
  escaped = false;
}

abbrev within : List (List ℕ) → ℕ → List ℕ → Scan
within items n s = record (inside items n s) { in_string = true }

-- The state between the objects.
abbrev found : List (List ℕ) → Scan
found items = record unscanned { items = items }
