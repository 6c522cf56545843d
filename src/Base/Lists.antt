-- ===== src/Base/Lists.antt =====
-- Lists read as tables: search, filter and update of the rows that a test selects, and their laws.
use mathlib.Core.Bool.{false≢true}
use brasaland_digital.Base.Names.{
  subst, sym, Bool-cases, ◌⊎◌, inl, inr, eq_iff, ℕ, suc, ◌+◌, ◌≡◌, refl, ap, Bool, true, false,
  ◌&&◌, ◌||◌, Option, none, some, List, [], ◌∷◌, ◌++◌, arith, if◌then◌else◌, String, ◌==◌,
}

module _ {ℓ} {A : Type ℓ} where
  abbrev pub length : List A → ℕ
  length [] = 0
  length (x ∷ xs) = suc (length xs)

  abbrev pub All {κ} : (A → Type κ) → List A → Type κ
  All P [] = Unit
  All P (x ∷ xs) = P x × All P xs

  -- The first row that passes the test.
  abbrev pub find : (A → Bool) → List A → Option A
  find p [] = none
  find p (x ∷ xs) = if p x then some x else find p xs

  abbrev pub exists : (A → Bool) → List A → Bool
  exists p [] = false
  exists p (x ∷ xs) = p x || exists p xs

  abbrev pub every : (A → Bool) → List A → Bool
  every p [] = true
  every p (x ∷ xs) = p x && every p xs

  abbrev pub select : (A → Bool) → List A → List A
  select p [] = []
  select p (x ∷ xs) = let rest = select p xs in if p x then x ∷ rest else rest

  abbrev pub reject : (A → Bool) → List A → List A
  reject p [] = []
  reject p (x ∷ xs) = let rest = reject p xs in if p x then rest else x ∷ rest

  -- Apply `f` to the rows that pass the test.
  abbrev pub update_where : (A → A) → (A → Bool) → List A → List A
  update_where f p [] = []
  update_where f p (x ∷ xs) = (if p x then f x else x) ∷ update_where f p xs

  abbrev pub is_empty : List A → Bool
  is_empty [] = true
  is_empty (x ∷ xs) = false

  pub find-append :
      (p : A → Bool) (xs ys : List A)
      → find p (xs ++ ys) ≡ elim (find p xs) [ none ↦ find p ys | some x ↦ some x ]
  find-append p [] ys = refl
  find-append p (x ∷ xs) ys = ground (arith, find-append p xs ys)

  pub find-passes : (p : A → Bool) (xs : List A) (x : A) → find p xs ≡ some x → p x ≡ true
  find-passes p [] x h = ground arith
  find-passes p (y ∷ ys) x h = ground (arith, find-passes p ys x)

  pub exists-find :
      (p : A → Bool) (xs : List A) → exists p xs ≡ elim (find p xs) [ none ↦ false | some x ↦ true ]
  exists-find p [] = refl
  exists-find p (x ∷ xs) = ground (arith, exists-find p xs)

  pub length-append : (xs ys : List A) → length (xs ++ ys) ≡ length xs + length ys
  length-append [] ys = omega arith
  length-append (x ∷ xs) ys = omega (arith, length-append xs ys)

  pub length-update_where :
      (f : A → A) (p : A → Bool) (xs : List A) → length (update_where f p xs) ≡ length xs
  length-update_where f p [] = refl
  length-update_where f p (x ∷ xs) = ap suc (length-update_where f p xs)

  pub All-append {κ} :
      (P : A → Type κ) (rows later : List A) → All P rows → All P later → All P (rows ++ later)
  All-append P [] later first rest = rest
  All-append P (row ∷ rows) later first rest = (first.0, All-append P rows later first.1 rest)

  pub All-update_where {κ} :
      (P : A → Type κ) (f : A → A) (p : A → Bool) (xs : List A)
      → ((x : A) → P x → P (f x))
      → All P xs
      → All P (update_where f p xs)
  All-update_where P f p [] keep h = tt
  All-update_where P f p (x ∷ xs) keep h =
      ground (arith, keep x h.0, All-update_where P f p xs keep h.1)

  pub All-reject {κ} :
      (P : A → Type κ) (p : A → Bool) (xs : List A) → All P xs → All P (reject p xs)
  All-reject P p [] h = tt
  All-reject P p (x ∷ xs) h = ground (arith, h.0, All-reject P p xs h.1)

  pub All-map {κ ι} :
      {P : A → Type κ} {Q : A → Type ι} (xs : List A) → ((x : A) → P x → Q x) → All P xs → All Q xs
  All-map [] f h = tt
  All-map (x ∷ xs) f h = (f x h.0, All-map xs f h.1)

  pub All-find {κ} :
      (P : A → Type κ) (p : A → Bool) (xs : List A) (x : A) → All P xs → find p xs ≡ some x → P x
  All-find P p [] x h e = ground arith
  All-find P p (y ∷ ys) x h e = ground (arith, h.0, All-find P p ys x h.1)

  pub All-select {κ} :
      (P : A → Type κ) (p : A → Bool) (xs : List A) → All P xs → All P (select p xs)
  All-select P p [] h = tt
  All-select P p (x ∷ xs) h = ground (arith, h.0, All-select P p xs h.1)

-- `s in names`
abbrev pub contains : String → List String → Bool
contains s [] = false
contains s (x ∷ xs) = s == x || contains s xs

-- What holds of all texts of a list holds of each that is in it.
pub All-contains :
    (P : String → Type 0) (xs : List String) (s : String) → All P xs → contains s xs ≡ true → P s
All-contains P [] s h m = absurd (false≢true m)
All-contains P (x ∷ xs) s h m = elim (Bool-cases (s == x)) [
  | inl here ↦ subst P (sym ((eq_iff s x).0 here)) h.0
  | inr later ↦ All-contains P xs s h.1 (ground arith)
]

-- To split on a computed list and keep the equation.
pub List-cases {ℓ} :
    {A : Type ℓ} (xs : List A) → (xs ≡ []) ⊎ ((x : A) × (rest : List A) × (xs ≡ x ∷ rest))
List-cases [] = inl refl
List-cases (x ∷ rest) = inr (x, rest, refl)
