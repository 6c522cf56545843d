-- ===== src/Base/Affixes.antt =====
-- More of Python's `str` methods: those that take the characters or the prefix they look for.
use Prim.Native.Char.{Char, code}
use Prim.Native.String.append.{nil, cons}
use brasaland_digital.Base.Names.{
  ℕ, zero, suc, ◌+◌, ◌≤◌, arith, ◌≡◌, refl, Bool, true, false, ◌&&◌, ◌||◌, eqb, String,
  if◌then◌else◌, List, [], ◌∷◌,
}
use brasaland_digital.Base.Text.{is_blank, concat}

-- `c in chars`
abbrev among : Char → String → Bool
among c String.[] = false
among c (String.◌∷◌ d s) = eqb (code c) (code d) || among c s

lstrip_of : String → String → String
lstrip_of chars String.[] = String.[]
lstrip_of chars (String.◌∷◌ c s) =
    let rest = lstrip_of chars s in if among c chars then rest else String.◌∷◌ c s

rstrip_of : String → String → String
rstrip_of chars String.[] = String.[]
rstrip_of chars (String.◌∷◌ c s) =
    let rest = rstrip_of chars s in
    if is_blank rest && among c chars then String.[] else String.◌∷◌ c rest

-- `s.strip(chars)`
unfoldable pub strip_of : String → String → String
unfolding lstrip_of rstrip_of
strip_of chars s = rstrip_of chars (lstrip_of chars s)

-- `s.replace(c, new)` for a single character.
unfoldable pub replace_char : Char → String → String → String
replace_char c new String.[] = String.[]
replace_char c new (String.◌∷◌ d s) =
    let rest = replace_char c new s in
    if eqb (code c) (code d) then concat new rest else String.◌∷◌ d rest

-- `s.startswith(prefix)`
unfoldable pub starts_with : String → String → Bool
starts_with s String.[] = true
starts_with String.[] (String.◌∷◌ c prefix) = false
starts_with (String.◌∷◌ d s) (String.◌∷◌ c prefix) = eqb (code c) (code d) && starts_with s prefix

-- `part in s`
unfoldable pub occurs_in : String → String → Bool
unfolding starts_with
occurs_in part String.[] = is_blank part
occurs_in part (String.◌∷◌ c s) =
    let later = occurs_in part s in if starts_with (String.◌∷◌ c s) part then true else later

-- `separator.join(parts)`
unfoldable pub join : String → List String → String
join separator [] = ""
join separator (part ∷ []) = part
join separator (part ∷ next ∷ rest) = concat part (concat separator (join separator (next ∷ rest)))

-- The part before the first `c`, and the parts after it.
abbrev begin_with : Char → List String → List String
begin_with d [] = String.◌∷◌ d String.[] ∷ []
begin_with d (part ∷ rest) = String.◌∷◌ d part ∷ rest

-- `s.split(c)` for a single character.
unfoldable pub split : Char → String → List String
split c String.[] = "" ∷ []
split c (String.◌∷◌ d s) =
    let parts = split c s in if eqb (code c) (code d) then "" ∷ parts else begin_with d parts

-- `len(s)`
unfoldable pub len : String → ℕ
len String.[] = 0
len (String.◌∷◌ c s) = suc (len s)

-- `s[:n]`
unfoldable pub prefix : ℕ → String → String
prefix zero s = String.[]
prefix (suc n) String.[] = String.[]
prefix (suc n) (String.◌∷◌ c s) = String.◌∷◌ c (prefix n s)

pub len-prefix : (n : ℕ) (s : String) → len (prefix n s) ≤ n
unfolding len prefix
len-prefix zero s = omega arith
len-prefix (suc n) String.[] = omega arith
len-prefix (suc n) (String.◌∷◌ c s) = omega (arith, len-prefix n s)

pub len-concat : (s t : String) → len (concat s t) ≡ len s + len t
unfolding len
len-concat String.[] t = rw (nil t) (omega arith)
len-concat (String.◌∷◌ c s) t = rw (cons c s t) (omega (arith, len-concat s t))

strip_of_example : strip_of " .," " ,so, far. " ≡ "so, far"
unfolding strip_of
strip_of_example = refl

starts_with_example : starts_with "7:miami" "7:" ≡ true
unfolding starts_with
starts_with_example = refl

split_example : split "," "a,,b" ≡ "a" ∷ "" ∷ "b" ∷ []
unfolding split
split_example = refl
