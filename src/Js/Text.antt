-- ===== src/Js/Text.antt =====
-- Text as JavaScript measures and cuts it, and the integers that template literals print.
pub mod Decimal
pub mod Cuts
use Prim.Native.Char.{Char, code}
use Prim.Native.String.{◌∷◌, ◌++◌}
use escld.Prelude.{ℕ, zero, suc, ◌+◌, ◌-◌, ◌/◌, ◌%◌, String, ltb, leb, eqb, if◌then◌else◌}
use escld.Js.Int.{ℤ, pos, negsuc}

-- The UTF-16 code units of a character.
abbrev pub units : Char → ℕ
units c = if ltb (code c) 0x10000 then 1 else 2

-- `text.length`.
unfoldable pub utf16_length : String → ℕ
utf16_length String.[] = 0
utf16_length (c ∷ s) = units c + utf16_length s

-- `text.slice(0, n)`. Where the cut falls inside a surrogate pair, JavaScript keeps the first half,
-- which no encoding can carry: the replacement character stands for it.
unfoldable pub utf16_take : ℕ → String → String
utf16_take n String.[] = ""
utf16_take n (c ∷ s) =
    let rest = utf16_take (n - units c) s in
    if leb (units c) n then c ∷ rest else if eqb n 0 then "" else "�"

-- `text.slice(n)`. Where the cut falls inside a surrogate pair, the replacement character stands for
-- the half that stays.
unfoldable pub utf16_drop : ℕ → String → String
utf16_drop n String.[] = ""
utf16_drop n (c ∷ s) =
    let rest = utf16_drop (n - units c) s in
    if eqb n 0 then c ∷ s else if leb (units c) n then rest else "�" ++ s

abbrev digit : ℕ → String
digit n =
    if eqb n 0
    then "0"
    else if eqb n 1
    then "1"
    else if eqb n 2
    then "2"
    else if eqb n 3
    then "3"
    else if eqb n 4
    then "4"
    else if eqb n 5
    then "5"
    else if eqb n 6
    then "6"
    else if eqb n 7
    then "7"
    else if eqb n 8
    then "8"
    else "9"

-- A number has at most as many digits as its value and one more.
decimal_from : ℕ → ℕ → String
decimal_from zero n = digit n
decimal_from (suc fuel) n =
    let front = decimal_from fuel (n / 10) in if ltb n 10 then digit n else front ++ digit (n % 10)

-- `${n}` for a natural number, and for an integer.
unfoldable pub decimal : ℕ → String
unfolding decimal_from
decimal n = decimal_from n n

unfoldable pub decimal_ℤ : ℤ → String
unfolding decimal
decimal_ℤ (pos n) = decimal n
decimal_ℤ (negsuc n) = "-" ++ decimal (suc n)
