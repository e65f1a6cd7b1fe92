-- ===== src/Sensors/Docker/Json.antt =====
-- crates/loadbear-sensors-windows/src/docker.rs: the module `json`, which reads fields out of known
-- answers.
pub mod Items
use loadbear.Prelude.{
  ℕ, zero, suc, Bool, true, false, not, ◌&&◌, ◌||◌, String, Option, none, some, List, [], ◌∷◌, ◌++◌,
  ◌==◌, if◌then◌else◌, ◌>>=◌, chars, strip_prefix, from_find, after_find, before, contains,
  take_while, drop_while, trim_start, is_digit, parse_u64, ℤ, pos, negsuc, add_one, sub_one,
  is_zero,
}

-- The variables of the loop in `array_items`. A text of 4 MB keeps the depth within the bounds of
-- `i32`. `start` is kept as the text from there on, up to the character at hand.
pub record Scan : Type 0 where
  pub items : List (List ℕ)
  pub depth : ℤ
  pub start : Option (List ℕ)
  pub in_string : Bool
  pub escaped : Bool

-- One more character of the text from `start` on.
abbrev pub extend : ℕ → Option (List ℕ) → Option (List ℕ)
extend c none = none
extend c (some s) = some (s ++ c ∷ [])

-- A brace that opens.
opened : Scan → Scan
opened s = record s {
  depth = add_one s.depth;
  start = extend b'{' (if is_zero s.depth then some [] else s.start);
}

-- An object that ends where the depth is back at zero.
finished : ℕ → List (List ℕ) → Option (List ℕ) → List (List ℕ)
finished c items none = items
finished c items (some s) = items ++ (s ++ c ∷ []) ∷ []

-- A brace that closes.
closed : Scan → Scan
unfolding finished
closed s =
    if is_zero (sub_one s.depth)
    then record s { items = finished b'}' s.items s.start; depth = sub_one s.depth; start = none }
    else record s { depth = sub_one s.depth; start = extend b'}' s.start }

-- The body of the loop.
unfoldable pub scan_char : ℕ → Scan → Scan
unfolding opened closed
scan_char c s =
    if s.escaped
    then record s { escaped = false; start = extend c s.start }
    else if c == b'\\' && s.in_string
    then record s { escaped = true; start = extend c s.start }
    else if c == b'"'
    then record s { in_string = not s.in_string; start = extend c s.start }
    else if c == b'{' && not s.in_string
    then opened s
    else if c == b'}' && not s.in_string
    then closed s
    else record s { start = extend c s.start }

unfoldable pub scan : List ℕ → Scan → Scan
unfolding scan_char
scan [] s = s
scan (c ∷ text) s = scan text (scan_char c s)

abbrev pub unscanned : Scan
unscanned = record { items = []; depth = pos 0; start = none; in_string = false; escaped = false }

unfoldable pub array_items : List ℕ → List (List ℕ)
unfolding scan
array_items text = (scan text unscanned).items

-- A key in quotes, and the colon behind it.
abbrev pub quoted : List ℕ → List ℕ
quoted key = b'"' ∷ key ++ b'"' ∷ b':' ∷ []

-- The text up to the next quote.
abbrev up_to_quote : List ℕ → Option (List ℕ)
up_to_quote s = if contains (b'"' ∷ []) s then some (before (b'"' ∷ []) s) else none

unfoldable pub string : List ℕ → List ℕ → Option (List ℕ)
string object key = do
  rest ← after_find (quoted key) object
  rest ← strip_prefix (b'"' ∷ []) (trim_start rest)
  up_to_quote rest

unfoldable pub first_name : List ℕ → Option (List ℕ)
first_name object = do
  rest ← after_find (quoted (chars "Names")) object
  rest ← strip_prefix (b'[' ∷ []) (trim_start rest)
  rest ← strip_prefix (b'"' ∷ []) (trim_start rest)
  name ← up_to_quote rest
  some (drop_while (λ c. c == b'/') name)

-- The number behind a key.
number_at : List ℕ → List ℕ → Option ℕ
number_at key scope = do
  rest ← after_find (quoted key) scope
  parse_u64 (take_while is_digit (trim_start rest))

-- The scope and the key of the inner field: `cpu_usage_` stands for one more level.
inner_scope : List ℕ → List ℕ → Option (List ℕ) → Option (List ℕ × List ℕ)
inner_scope inner scope none = some (inner, scope)
inner_scope inner scope (some leaf) = do
  scope ← from_find (quoted (chars "cpu_usage")) scope
  some (leaf, scope)

unfoldable pub nested_u64 : List ℕ → String → String → Option ℕ
unfolding number_at inner_scope
nested_u64 text outer inner = do
  scope ← from_find (quoted (chars outer)) text
  at ← inner_scope (chars inner) scope (strip_prefix (chars "cpu_usage_") (chars inner))
  number_at at.0 at.1
