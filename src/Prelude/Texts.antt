-- ===== src/Prelude/Texts.antt =====
-- Decimal printing of an unsigned integer, as `{}` prints it.
use Prim.Native.Nat.{ℕ, zero, suc, ◌/◌, ◌%◌}
use Prim.Native.String.{String, ◌++◌}
use mathlib.Core.List.{List, [], ◌∷◌}
use loadbear.Prelude.Tests.{ltb, if◌then◌else◌}

digit : ℕ → String
digit d =
    if ltb d 1
    then "0"
    else if ltb d 2
    then "1"
    else if ltb d 3
    then "2"
    else if ltb d 4
    then "3"
    else if ltb d 5
    then "4"
    else if ltb d 6
    then "5"
    else if ltb d 7
    then "6"
    else if ltb d 8
    then "7"
    else if ltb d 9
    then "8"
    else "9"

show_digits : ℕ → ℕ → String
unfolding digit
show_digits zero n = ""
show_digits (suc fuel) n =
    let rest = show_digits fuel (n / 10) ++ digit (n % 10) in if ltb n 10 then digit n else rest

-- A number has at most as many digits as it counts, and one.
unfoldable pub show_ℕ : ℕ → String
unfolding show_digits
show_ℕ n = show_digits (suc n) n

-- The parts of a formatted text, joined.
abbrev pub concat : List String → String
concat [] = ""
concat (s ∷ ss) = s ++ concat ss
