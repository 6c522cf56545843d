-- ===== src/Rfp/Prompt/Fences.antt =====
-- What the deletion of the delimiters in data/pipelines/rfp_intake/draft_prompt.py leaves.
use Prim.Native.Char.{Char, code}
use brasaland_digital.Base.{
  ◌≡◌, ◌∙◌, refl, inl, inr, Bool, false, ◌&&◌, ◌||◌, String, arith, eqb, Bool-cases,
}
use brasaland_digital.Rfp.Prompt.{is_triple, without_triples, strip_fence_delimiters}

-- Whether three times the character stands anywhere.
unfoldable pub has_triple : Char → String → Bool
has_triple c String.[] = false
has_triple c (String.◌∷◌ x String.[]) = false
has_triple c (String.◌∷◌ x (String.◌∷◌ y String.[])) = false
has_triple c (String.◌∷◌ x (String.◌∷◌ y (String.◌∷◌ z s))) =
    is_triple c x y z || has_triple c (String.◌∷◌ y (String.◌∷◌ z s))

-- Whether a text begins with the character, once or twice.
abbrev pub starts_once : Char → String → Bool
starts_once c String.[] = false
starts_once c (String.◌∷◌ x s) = eqb (code c) (code x)

abbrev pub starts_twice : Char → String → Bool
starts_twice c String.[] = false
starts_twice c (String.◌∷◌ x s) = eqb (code c) (code x) && starts_once c s

pub has_triple-cons :
    (c x : Char) (s : String)
    → has_triple c (String.◌∷◌ x s) ≡ (eqb (code c) (code x) && starts_twice c s || has_triple c s)
unfolding has_triple
has_triple-cons c x String.[] = ground arith
has_triple-cons c x (String.◌∷◌ y String.[]) = ground arith
has_triple-cons c x (String.◌∷◌ y (String.◌∷◌ z s)) = ground arith

-- What is left of a text that begins with another character begins with it too.
kept_start :
    (c x : Char) (s : String)
    → eqb (code c) (code x) ≡ false
    → starts_once c (without_triples c (String.◌∷◌ x s)) ≡ false
unfolding without_triples
kept_start c x String.[] h = h
kept_start c x (String.◌∷◌ y String.[]) h = h
kept_start c x (String.◌∷◌ y (String.◌∷◌ z s)) h = ground (arith, h)

pub once_twice : (c : Char) (s : String) → starts_once c s ≡ false → starts_twice c s ≡ false
once_twice c String.[] h = refl
once_twice c (String.◌∷◌ x s) h = ground (arith, h)

kept_second :
    (c x y : Char) (s : String)
    → eqb (code c) (code y) ≡ false
    → starts_twice c (without_triples c (String.◌∷◌ x (String.◌∷◌ y s))) ≡ false
unfolding without_triples
kept_second c x y String.[] h = ground (arith, h)
kept_second c x y (String.◌∷◌ z s) h = ground (arith, h, kept_start c y (String.◌∷◌ z s) h)

-- Where not all of three are the character, they do not become so.
kept_triple :
    (c x y z : Char) (s : String)
    → is_triple c x y z ≡ false
    → (eqb (code c) (code x) && starts_twice c (without_triples c (String.◌∷◌ y (String.◌∷◌ z s))))
      ≡ false
kept_triple c x y z s h = elim (Bool-cases (eqb (code c) (code x))) [
  | inr first ↦ rw (first) refl
  | inl same ↦ elim (Bool-cases (eqb (code c) (code y))) [
    | inr second ↦ rw (same) (
        once_twice c (without_triples c (String.◌∷◌ y (String.◌∷◌ z s)))
          (kept_start c y (String.◌∷◌ z s) second))
    | inl both ↦ rw (same) (kept_second c y z s (ground arith))
  ]
]

no_triples : (c : Char) (s : String) → has_triple c (without_triples c s) ≡ false
unfolding without_triples has_triple
no_triples c String.[] = refl
no_triples c (String.◌∷◌ x String.[]) = refl
no_triples c (String.◌∷◌ x (String.◌∷◌ y String.[])) = refl
no_triples c (String.◌∷◌ x (String.◌∷◌ y (String.◌∷◌ z s))) =
    elim (Bool-cases (is_triple c x y z)) [
      | inl triple ↦ rw (triple) (no_triples c s)
      | inr kept ↦
          let rest = without_triples c (String.◌∷◌ y (String.◌∷◌ z s)) in
          rw (kept) (
            has_triple-cons c x rest
            ∙ rw (kept_triple c x y z s kept) (no_triples c (String.◌∷◌ y (String.◌∷◌ z s))))
    ]

-- In a value that was stripped of the delimiters `>>>` does not stand.
pub fence_stays_open : (value : String) → has_triple ">" (strip_fence_delimiters value) ≡ false
unfolding strip_fence_delimiters
fence_stays_open value = no_triples ">" (without_triples "<" value)

-- The opening of a fence can come about, since the closing ones are removed after it.
opening_made : strip_fence_delimiters "<<>>><" ≡ "<<<"
unfolding strip_fence_delimiters without_triples
opening_made = refl
