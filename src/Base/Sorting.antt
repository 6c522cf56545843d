-- ===== src/Base/Sorting.antt =====
-- `sorted` on texts: Python orders them by code point.
use Prim.Native.Char.{code}
use brasaland_digital.Base.Names.{
  ◌≡◌, refl, Bool, true, false, List, [], ◌∷◌, arith, ltb, eqb, if◌then◌else◌, String, eq_iff,
}
use brasaland_digital.Base.Lists.{contains, All}

unfoldable pub str_leb : String → String → Bool
str_leb String.[] t = true
str_leb (String.◌∷◌ c s) String.[] = false
str_leb (String.◌∷◌ c s) (String.◌∷◌ d t) =
    let rest = str_leb s t in
    if ltb (code c) (code d) then true else if eqb (code c) (code d) then rest else false

pub insert_sorted : String → List String → List String
insert_sorted x [] = x ∷ []
insert_sorted x (y ∷ ys) = if str_leb x y then x ∷ y ∷ ys else y ∷ insert_sorted x ys

unfoldable pub sorted : List String → List String
unfolding insert_sorted str_leb
sorted [] = []
sorted (x ∷ xs) = insert_sorted x (sorted xs)

-- Each text is at most the next one.
abbrev pub IsSorted : List String → Type 0
IsSorted [] = Unit
IsSorted (x ∷ []) = Unit
IsSorted (x ∷ y ∷ ys) = (str_leb x y ≡ true) × IsSorted (y ∷ ys)

-- No text stands twice.
abbrev pub Distinct : List String → Type 0
Distinct [] = Unit
Distinct (x ∷ xs) = (contains x xs ≡ false) × Distinct xs

str_leb_total : (s t : String) → str_leb s t ≡ false → str_leb t s ≡ true
unfolding str_leb
str_leb_total String.[] t h = ground arith
str_leb_total (String.◌∷◌ c s) String.[] h = refl
str_leb_total (String.◌∷◌ c s) (String.◌∷◌ d t) h = ground (arith, str_leb_total s t)

insert_sorted-IsSorted :
    (x : String) (ys : List String) → IsSorted ys → IsSorted (insert_sorted x ys)
unfolding insert_sorted
insert_sorted-IsSorted x [] h = tt
insert_sorted-IsSorted x (y ∷ []) h = ground (arith, str_leb_total x y)
insert_sorted-IsSorted x (y ∷ z ∷ zs) h =
    ground (arith, str_leb_total x y, str_leb_total x z, insert_sorted-IsSorted x (z ∷ zs) h.1)

pub sorted-IsSorted : (xs : List String) → IsSorted (sorted xs)
unfolding sorted
sorted-IsSorted [] = tt
sorted-IsSorted (x ∷ xs) = insert_sorted-IsSorted x (sorted xs) (sorted-IsSorted xs)

insert_sorted_least :
    (x : String) (ys : List String) → IsSorted (x ∷ ys) → insert_sorted x ys ≡ x ∷ ys
unfolding insert_sorted
insert_sorted_least x [] h = refl
insert_sorted_least x (y ∷ ys) h = ground arith

pub tail-IsSorted : (x : String) (xs : List String) → IsSorted (x ∷ xs) → IsSorted xs
tail-IsSorted x [] h = tt
tail-IsSorted x (y ∷ ys) h = h.1

-- Sorting a sorted list changes nothing.
pub sorted_fixed : (xs : List String) → IsSorted xs → sorted xs ≡ xs
unfolding sorted
sorted_fixed [] h = refl
sorted_fixed (x ∷ xs) h =
    ground (arith, sorted_fixed xs (tail-IsSorted x xs h), insert_sorted_least x xs h)

contains-insert_sorted :
    (z x : String) (ys : List String) → contains z (insert_sorted x ys) ≡ contains z (x ∷ ys)
unfolding insert_sorted
contains-insert_sorted z x [] = refl
contains-insert_sorted z x (y ∷ ys) = ground (arith, contains-insert_sorted z x ys)

-- Sorting keeps the members.
pub contains-sorted : (z : String) (xs : List String) → contains z (sorted xs) ≡ contains z xs
unfolding sorted
contains-sorted z [] = refl
contains-sorted z (x ∷ xs) =
    ground (arith, contains-insert_sorted z x (sorted xs), contains-sorted z xs)

insert_sorted-Distinct :
    (x : String) (ys : List String)
    → contains x ys ≡ false
    → Distinct ys
    → Distinct (insert_sorted x ys)
unfolding insert_sorted
insert_sorted-Distinct x [] n h = (refl, tt)
insert_sorted-Distinct x (y ∷ ys) n h = ground (
  arith,
  eq_iff x y,
  eq_iff y x,
  contains-insert_sorted y x ys,
  insert_sorted-Distinct x ys (ground arith) h.1,
)

pub sorted-Distinct : (xs : List String) → Distinct xs → Distinct (sorted xs)
unfolding sorted
sorted-Distinct [] h = tt
sorted-Distinct (x ∷ xs) h =
    insert_sorted-Distinct x (sorted xs) (ground (arith, contains-sorted x xs))
      (sorted-Distinct xs h.1)

All-insert_sorted :
    (P : String → Type 0) (x : String) (ys : List String)
    → P x
    → All P ys
    → All P (insert_sorted x ys)
unfolding insert_sorted
All-insert_sorted P x [] hx h = (hx, tt)
All-insert_sorted P x (y ∷ ys) hx h = ground (arith, All-insert_sorted P x ys hx h.1)

pub All-sorted : (P : String → Type 0) (xs : List String) → All P xs → All P (sorted xs)
unfolding sorted
All-sorted P [] h = tt
All-sorted P (x ∷ xs) h = All-insert_sorted P x (sorted xs) h.0 (All-sorted P xs h.1)
