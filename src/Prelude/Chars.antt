-- ===== src/Prelude/Chars.antt =====
-- Texts as lists of code points, and the methods of `str` on them.
use Prim.Native.Nat.{ℕ, zero, suc, ◌+◌, ◌-◌, ◌*◌, ◌^◌}
use Prim.Native.Char.{code}
use Prim.Native.String.{String}
use mathlib.Core.Bool.{Bool, ◌&&◌, ◌||◌}
use mathlib.Core.List.{List, [], ◌∷◌}
use mathlib.Core.Option.{Option, none, some}
use loadbear.Prelude.Tests.{ltb, leb, ◌==◌, if◌then◌else◌, is_some, ◌>>=◌}

-- The code points of a text.
abbrev pub chars : String → List ℕ
chars String.[] = []
chars (String.◌∷◌ c s) = code c ∷ chars s

-- `strip_prefix`: the first text is the prefix.
abbrev pub strip_prefix : List ℕ → List ℕ → Option (List ℕ)
strip_prefix [] s = some s
strip_prefix (p ∷ ps) [] = none
strip_prefix (p ∷ ps) (c ∷ s) = if p == c then strip_prefix ps s else none

-- The text from the first place on where this one stands: `find` and the slice from it.
abbrev pub from_find : List ℕ → List ℕ → Option (List ℕ)
from_find needle [] = if is_some (strip_prefix needle []) then some [] else none
from_find needle (c ∷ s) =
    let rest = from_find needle s in
    if is_some (strip_prefix needle (c ∷ s)) then some (c ∷ s) else rest

-- What stands behind it.
abbrev pub after_find : List ℕ → List ℕ → Option (List ℕ)
after_find needle s = do t ← from_find needle s; strip_prefix needle t

-- What stands before it, or the whole text: `split` with `next`.
abbrev pub before : List ℕ → List ℕ → List ℕ
before needle [] = []
before needle (c ∷ s) =
    let rest = c ∷ before needle s in if is_some (strip_prefix needle (c ∷ s)) then [] else rest

-- `split_once`
abbrev pub split_once : List ℕ → List ℕ → Option (List ℕ × List ℕ)
split_once needle s = do rest ← after_find needle s; some (before needle s, rest)

abbrev pub contains : List ℕ → List ℕ → Bool
contains needle s = is_some (from_find needle s)

-- `char::is_whitespace`
abbrev pub is_whitespace : ℕ → Bool
is_whitespace c =
    leb 9 c && leb c 13
    || c == 32
    || c == 133
    || c == 160
    || c == 5760
    || leb 8192 c && leb c 8202
    || c == 8232
    || c == 8233
    || c == 8239
    || c == 8287
    || c == 12288

-- `take_while` and `trim_start_matches`
abbrev pub take_while : (ℕ → Bool) → List ℕ → List ℕ
take_while p [] = []
take_while p (c ∷ s) = let rest = c ∷ take_while p s in if p c then rest else []

abbrev pub drop_while : (ℕ → Bool) → List ℕ → List ℕ
drop_while p [] = []
drop_while p (c ∷ s) = let rest = drop_while p s in if p c then rest else c ∷ s

abbrev pub trim_start : List ℕ → List ℕ
trim_start = drop_while is_whitespace

abbrev pub trim_end : List ℕ → List ℕ
trim_end [] = []
trim_end (c ∷ s) = elim (trim_end s) [
  | [] ↦ if is_whitespace c then [] else c ∷ []
  | e ∷ t ↦ c ∷ e ∷ t
]

abbrev pub trim : List ℕ → List ℕ
trim s = trim_end (trim_start s)

abbrev pub is_digit : ℕ → Bool
is_digit c = leb b'0' c && leb c b'9'

-- The value of a digit in base 16.
abbrev hex_digit : ℕ → Option ℕ
hex_digit c =
    if is_digit c
    then some (c - b'0')
    else if leb b'a' c && leb c b'f'
    then some (c - b'a' + 10)
    else if leb b'A' c && leb c b'F'
    then some (c - b'A' + 10)
    else none

abbrev dec_digit : ℕ → Option ℕ
dec_digit c = if is_digit c then some (c - b'0') else none

-- The digits of an unsigned number of 64 bits, after the value so far.
abbrev digits : (ℕ → Option ℕ) → ℕ → ℕ → List ℕ → Option ℕ
digits digit base n [] = some n
digits digit base n (c ∷ s) = do
  d ← digit c
  if ltb (n * base + d) (2 ^ 64) then digits digit base (n * base + d) s else none

-- `from_str_radix` and `parse`, which take one `+` before a digit.
abbrev number : (ℕ → Option ℕ) → ℕ → List ℕ → Option ℕ
number digit base [] = none
number digit base (c ∷ []) = digits digit base 0 (c ∷ [])
number digit base (c ∷ e ∷ s) =
    if c == b'+' then digits digit base 0 (e ∷ s) else digits digit base 0 (c ∷ e ∷ s)

abbrev pub parse_hex : List ℕ → Option ℕ
parse_hex = number hex_digit 16

abbrev pub parse_u64 : List ℕ → Option ℕ
parse_u64 = number dec_digit 10

-- The bytes of the UTF-8 of a character.
abbrev pub len_utf8 : ℕ → ℕ
len_utf8 c = if ltb c 128 then 1 else if ltb c 2048 then 2 else if ltb c 65536 then 3 else 4

abbrev pub byte_len : List ℕ → ℕ
byte_len [] = 0
byte_len (c ∷ s) = len_utf8 c + byte_len s

abbrev no_cut : ℕ → Option (List ℕ × List ℕ)
no_cut zero = some ([], [])
no_cut (suc n) = none

-- The text up to a byte position and the text from it on. The slice panics, here `none`, past the end
-- and inside a character.
abbrev pub split_at : ℕ → List ℕ → Option (List ℕ × List ℕ)
split_at n [] = no_cut n
split_at zero (c ∷ s) = some ([], c ∷ s)
split_at (suc n) (c ∷ s) =
    if ltb (suc n) (len_utf8 c)
    then none
    else do cut ← split_at (suc n - len_utf8 c) s; some (c ∷ cut.0, cut.1)
