-- ===== src/Base/Dicts.antt =====
-- A Python `dict` with texts as keys: its items in the order of insertion.
use brasaland_digital.Base.Names.{
  ◌≡◌, Bool, false, Option, none, some, List, [], ◌∷◌, String, ◌==◌, if◌then◌else◌, arith, eq_iff,
  Bool-cases, inl, inr,
}
use brasaland_digital.Base.Lists.{All, reject}

abbrev pub Dict {ℓ} : Type ℓ → Type ℓ
Dict A = List (String × A)

module _ {ℓ} {A : Type ℓ} where
  -- `d.get(key)`
  abbrev pub lookup : String → Dict A → Option A
  lookup key [] = none
  lookup key (item ∷ rest) = if item.0 == key then some item.1 else lookup key rest

  -- `d[key] = value`: a new value takes the place of the old one.
  abbrev pub put : String → A → Dict A → Dict A
  put key value [] = (key, value) ∷ []
  put key value (item ∷ rest) =
      let later = put key value rest in if item.0 == key then (key, value) ∷ rest else item ∷ later

  -- `d.pop(key, None)`
  abbrev pub pop : String → Dict A → Dict A
  pop key d = reject (λ item. item.0 == key) d

  pub lookup-put :
      (key : String) (value : A) (d : Dict A) → lookup key (put key value d) ≡ some value
  lookup-put key value [] = ground (arith, eq_iff key key)
  lookup-put key value (item ∷ rest) = ground (arith, lookup-put key value rest, eq_iff key key)

  pub lookup-put_other :
      (key other : String) (value : A) (d : Dict A)
      → (key == other) ≡ false
      → lookup other (put key value d) ≡ lookup other d
  lookup-put_other key other value [] h = ground arith
  lookup-put_other key other value (item ∷ rest) h = elim (Bool-cases (item.0 == key)) [
    | inl same ↦ ground (arith, eq_iff item.0 key, lookup-put_other key other value rest h)
    | inr differs ↦ ground (arith, lookup-put_other key other value rest h)
  ]

  -- The value that a key has stays where its item does not pass the test.
  pub lookup-reject :
      (test : String × A → Bool) (key : String) (value : A) (d : Dict A)
      → lookup key d ≡ some value
      → test (key, value) ≡ false
      → lookup key (reject test d) ≡ some value
  lookup-reject test key value [] found keeps = absurd (ground arith)
  lookup-reject test key value (item ∷ rest) found keeps = elim (Bool-cases (item.0 == key)) [
    | inl same ↦ ground (arith, eq_iff item.0 key)
    | inr differs ↦ ground (arith, lookup-reject test key value rest)
  ]

  pub All-put {κ} :
      (P : String × A → Type κ) (key : String) (value : A) (d : Dict A)
      → P (key, value)
      → All P d
      → All P (put key value d)
  All-put P key value [] fits h = (fits, tt)
  All-put P key value (item ∷ rest) fits h =
      ground (arith, h.0, h.1, All-put P key value rest fits h.1)

  pub All-lookup {κ} :
      (P : A → Type κ) (key : String) (value : A) (d : Dict A)
      → All (λ item. P item.1) d
      → lookup key d ≡ some value
      → P value
  All-lookup P key value [] h found = absurd (ground arith)
  All-lookup P key value (item ∷ rest) h found =
      ground (arith, h.0, All-lookup P key value rest h.1)
