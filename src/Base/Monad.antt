-- ===== src/Base/Monad.antt =====
-- Code that reads and writes a state and may raise. What was written before a raise stays written.
use brasaland_digital.Base.Names.{◌≡◌, refl, arith, Bool, Option, none, some, if◌then◌else◌}
use brasaland_digital.Base.Results.{Result, ok, err}

abbrev pub Action : Type 0 → Type 0 → Type 0 → Type 0
Action E S A = S → Result E A × S

module _ {E S A : Type 0} where
  abbrev pub pure : A → Action E S A
  pure a s = (ok a, s)

  abbrev pub raise : E → Action E S A
  raise e s = (err e, s)

  abbrev pub gets : (S → A) → Action E S A
  gets f s = (ok (f s), s)

  -- A pure computation that may raise.
  abbrev pub lift : Result E A → Action E S A
  lift r s = (r, s)

  -- `except: return default`
  abbrev pub or_default : A → Action E S A → Action E S A
  or_default d m s = let (r, s') = m s in (elim r [ ok a ↦ ok a | err e ↦ ok d ], s')

infixl 5 ◌>>=◌ ◌>>◌
abbrev pub ◌>>=◌ : {E S A B : Type 0} → Action E S A → (A → Action E S B) → Action E S B
◌>>=◌ m f s = let (r, s') = m s in elim r [ ok a ↦ f a s' | err e ↦ (err e, s') ]

abbrev pub ◌>>◌ : {E S B : Type 0} → Action E S (Unit {0}) → Action E S B → Action E S B
first >> second = first >>= λ _. second

abbrev pub modify : {E S : Type 0} → (S → S) → Action E S (Unit {0})
modify f s = (ok tt, f s)

-- `if test: raise e`
abbrev pub raise_if : {E S : Type 0} → Bool → E → Action E S (Unit {0})
raise_if test e s = (if test then err e else ok tt, s)

-- `if x is None: raise e`
abbrev pub unwrap : {E S A : Type 0} → Option A → E → Action E S A
unwrap none e s = (err e, s)
unwrap (some a) e s = (ok a, s)

-- What holds of the state after a chain: it holds after the first part, and the second part, run on
-- what the first returned, keeps it.
pub after_bind :
    {E S A B : Type 0} (P : S → Type 0) (m : Action E S A) (f : A → Action E S B) (s : S)
    → P (m s).1
    → ((a : A) → (m s).0 ≡ ok a → P (f a (m s).1).1)
    → P ((m >>= f) s).1
after_bind {E} {S} {A} {B} P m f s first rest = go (m s).0 refl
  where
    go :
        (r : Result E A)
        → (m s).0 ≡ r
        → P (elim r as (λ x. Result E B × S) [ ok a ↦ f a (m s).1 | err e ↦ (err e, (m s).1) ]).1
    go (ok a) e = rest a e
    go (err x) e = first

-- The same for the answer of a chain: a raise ends it.
pub answer_after_bind :
    {E S A B : Type 0} (P : Result E B → Type 0) (m : Action E S A) (f : A → Action E S B) (s : S)
    → ((raised : E) → P (err raised))
    → ((a : A) → (m s).0 ≡ ok a → P (f a (m s).1).0)
    → P ((m >>= f) s).0
answer_after_bind {E} {S} {A} {B} P m f s ends rest = go (m s).0 refl
  where
    go :
        (r : Result E A)
        → (m s).0 ≡ r
        → P (elim r as (λ x. Result E B × S) [ ok a ↦ f a (m s).1 | err e ↦ (err e, (m s).1) ]).0
    go (err x) e = ends x
    go (ok a) e = rest a e

-- `unwrap` and `raise_if` only look.
pub unwrap_state : {E S A : Type 0} (o : Option A) (e : E) (s : S) → (unwrap o e s).1 ≡ s
unwrap_state none e s = refl
unwrap_state (some a) e s = refl

-- Inversion of a chain that returns.
pub >>=-eq-ok :
    {E S A B : Type 0} (m : Action E S A) (f : A → Action E S B) (s : S) {b : B}
    → ((m >>= f) s).0 ≡ ok b
    → (a : A) × ((m s).0 ≡ ok a) × ((m >>= f) s ≡ f a (m s).1)
>>=-eq-ok {E} {S} {A} {B} m f s {b} h = go (m s).0 refl h
  where
    go :
        (r : Result E A)
        → (m s).0 ≡ r
        → (elim r as (λ x. Result E B × S) [ ok a ↦ f a (m s).1 | err e ↦ (err e, (m s).1) ]).0
          ≡ ok b
        → (a : A) × ((m s).0 ≡ ok a) × ((m >>= f) s ≡ f a (m s).1)
    go (ok a) e h' = (a, e, rw (e, ◌>>=◌))
    go (err x) e h' = absurd (ground arith)
