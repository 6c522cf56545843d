-- ===== src/Base/Text.antt =====
-- Python's `str` methods that the services call.
use Prim.Native.Char.{Char, code}
use Prim.Native.String.{◌++◌}
use brasaland_digital.Base.Names.{
  ℕ, zero, suc, ◌≡◌, refl, Bool, true, false, ◌&&◌, ◌||◌, eqb, leb, if◌then◌else◌, String, ◌/◌, ◌%◌,
  ◌+◌, ◌*◌, ◌-◌, Option, none, some,
}

-- `str.isspace` of one character.
abbrev pub is_space : Char → Bool
is_space ch =
    let c = code ch in
    leb 9 c && leb c 13
    || (leb 28 c && leb c 32)
    || eqb c 133
    || eqb c 160
    || eqb c 5760
    || (leb 8192 c && leb c 8202)
    || eqb c 8232
    || eqb c 8233
    || eqb c 8239
    || eqb c 8287
    || eqb c 12288

-- `s + t`
abbrev pub concat : String → String → String
concat s t = s ++ t

-- `not s`
abbrev pub is_blank : String → Bool
is_blank String.[] = true
is_blank (String.◌∷◌ c s) = false

unfoldable pub lstrip : String → String
lstrip String.[] = String.[]
lstrip (String.◌∷◌ c s) = let rest = lstrip s in if is_space c then rest else String.◌∷◌ c s

unfoldable pub rstrip : String → String
rstrip String.[] = String.[]
rstrip (String.◌∷◌ c s) =
    let rest = rstrip s in if is_blank rest && is_space c then String.[] else String.◌∷◌ c rest

-- `str.strip()`
unfoldable pub strip : String → String
unfolding lstrip rstrip
strip s = rstrip (lstrip s)

digit : ℕ → String
digit n =
    if eqb n 0
    then "0"
    else if eqb n 1
    then "1"
    else if eqb n 2
    then "2"
    else if eqb n 3
    then "3"
    else if eqb n 4
    then "4"
    else if eqb n 5
    then "5"
    else if eqb n 6
    then "6"
    else if eqb n 7
    then "7"
    else if eqb n 8
    then "8"
    else "9"

-- The digits of `n` before `rest`, with fuel; `n + 1` is enough, since each round divides by ten.
decimal_fuel : ℕ → ℕ → String → String
unfolding digit
decimal_fuel zero n rest = rest
decimal_fuel (suc f) n rest =
    let here = digit (n % 10) ++ rest in
    let longer = decimal_fuel f (n / 10) here in if leb n 9 then here else longer

-- `str(n)` of a number that is not negative.
unfoldable pub decimal : ℕ → String
unfolding decimal_fuel
decimal n = decimal_fuel (suc n) n ""

-- The number that decimal digits stand for, `none` where another character stands.
digits_from : ℕ → String → Option ℕ
digits_from acc String.[] = some acc
digits_from acc (String.◌∷◌ c s) =
    let d = code c in
    let rest = digits_from (acc * 10 + (d - 48)) s in if leb 48 d && leb d 57 then rest else none

-- `int(text)` for a text of decimal digits; `none` is the `ValueError`.
unfoldable pub int_of : String → Option ℕ
unfolding digits_from
int_of s = if is_blank s then none else digits_from 0 s

decimal_example : decimal 1024 ≡ "1024"
unfolding decimal
decimal_example = refl

int_of_example : int_of "1024" ≡ some 1024
unfolding int_of
int_of_example = refl

strip_example : strip "  a b " ≡ "a b"
unfolding strip
strip_example = refl
