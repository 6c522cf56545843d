-- ===== src/Rfp/Prompt/Fenced.antt =====
-- The blocks of data/pipelines/rfp_intake/draft_prompt.py: what stands between the fences.
use Prim.Native.Char.{Char, code}
use Prim.Native.String.append.{nil, cons}
use brasaland_digital.Base.{
  ◌≡◌, refl, inl, inr, ◌⊎◌, Bool, false, ◌&&◌, ◌||◌, Option, some, none, List, [], ◌∷◌, String,
  arith, eqb, All, All-append, Bool-cases, Option-cases, List-cases, subst, concat, is_blank,
  is_space, strip, lstrip, rstrip, map,
}
use brasaland_digital.Base.Regex.{joined}
use brasaland_digital.Base.Affixes.{join}
use brasaland_digital.Rfp.Prompt.{
  Value, absent, text, items, Metadata, fence_open, fence_close, strip_fence_delimiters,
  should_omit_text, prepare_text, prepare_items, prepare_list, prepared_line, text_line,
  question_lines, metadata_lines, format_metadata_for_prompt, format_key_aspects_for_prompt,
}
use brasaland_digital.Rfp.Prompt.Fences.{
  has_triple, has_triple-cons, starts_once, starts_twice, once_twice, fence_stays_open,
}

-- Three greater-than signs, of which the closing fence is made, do not stand in the text.
abbrev pub IsClosed : String → Type 0
IsClosed s = has_triple ">" s ≡ false

tail-IsClosed : (x : Char) (s : String) → IsClosed (String.◌∷◌ x s) → IsClosed s
tail-IsClosed x s h = ground (arith, has_triple-cons ">" x s)

lstrip-IsClosed : (s : String) → IsClosed s → IsClosed (lstrip s)
unfolding lstrip
lstrip-IsClosed String.[] h = h
lstrip-IsClosed (String.◌∷◌ x s) h = elim (Bool-cases (is_space x)) [
  | inl blank ↦ rw blank (lstrip-IsClosed s (tail-IsClosed x s h))
  | inr kept ↦ rw kept h
]

-- What is left of a text at its end begins as the text does, or is empty.
rstrip_once : (s : String) → starts_once ">" s ≡ false → starts_once ">" (rstrip s) ≡ false
unfolding rstrip
rstrip_once String.[] h = h
rstrip_once (String.◌∷◌ x s) h = elim (Bool-cases (is_blank (rstrip s) && is_space x)) [
  | inl gone ↦ rw gone refl
  | inr kept ↦ rw kept h
]

rstrip_twice : (s : String) → starts_twice ">" s ≡ false → starts_twice ">" (rstrip s) ≡ false
unfolding rstrip
rstrip_twice String.[] h = h
rstrip_twice (String.◌∷◌ x s) h = elim (Bool-cases (is_blank (rstrip s) && is_space x)) [
  | inl gone ↦ rw gone refl
  | inr kept ↦ rw kept (elim (Bool-cases (eqb (code ">") (code x))) [
    | inl same ↦ rw same (rstrip_once s (ground arith))
    | inr differs ↦ rw differs refl
  ])
]

rstrip-IsClosed : (s : String) → IsClosed s → IsClosed (rstrip s)
unfolding rstrip has_triple
rstrip-IsClosed String.[] h = h
rstrip-IsClosed (String.◌∷◌ x s) h = elim (Bool-cases (is_blank (rstrip s) && is_space x)) [
  | inl gone ↦ rw gone refl
  | inr kept ↦ rw kept (
      ground (
        arith,
        has_triple-cons ">" x s,
        has_triple-cons ">" x (rstrip s),
        rstrip_twice s,
        rstrip-IsClosed s,
      ))
]

-- Two texts, the second of which does not begin with the sign.
append_once :
    (a b : String)
    → starts_once ">" a ≡ false
    → starts_once ">" b ≡ false
    → starts_once ">" (concat a b) ≡ false
append_once String.[] b h k = rw nil k
append_once (String.◌∷◌ x a) b h k = rw cons h

append_twice :
    (a b : String)
    → starts_twice ">" a ≡ false
    → starts_once ">" b ≡ false
    → starts_twice ">" (concat a b) ≡ false
append_twice String.[] b h k = rw nil (once_twice ">" b k)
append_twice (String.◌∷◌ x a) b h k = rw cons (ground (arith, append_once a b))

append-IsClosed :
    (a b : String) → starts_once ">" b ≡ false → IsClosed a → IsClosed b → IsClosed (concat a b)
append-IsClosed String.[] b start h k = rw nil k
append-IsClosed (String.◌∷◌ x a) b start h k = rw cons (
    ground (
      arith,
      has_triple-cons ">" x a,
      has_triple-cons ">" x (concat a b),
      append_twice a b,
      append-IsClosed a b start,
    ))

-- A text without the sign, such as a label.
abbrev has_sign : String → Bool
has_sign String.[] = false
has_sign (String.◌∷◌ x s) = eqb (code ">") (code x) || has_sign s

label-IsClosed :
    (label b : String) → has_sign label ≡ false → IsClosed b → IsClosed (concat label b)
label-IsClosed String.[] b h k = rw nil k
label-IsClosed (String.◌∷◌ x a) b h k =
    rw cons (ground (arith, has_triple-cons ">" x (concat a b), label-IsClosed a b))

join-IsClosed : (lines : List String) → All IsClosed lines → IsClosed (join "\n" lines)
unfolding join has_triple
join-IsClosed [] h = refl
join-IsClosed (line ∷ []) h = h.0
join-IsClosed (line ∷ next ∷ rest) h =
    let later = join "\n" (next ∷ rest) in
    append-IsClosed line (concat "\n" later) (rw cons refl) h.0
      (label-IsClosed "\n" later refl (join-IsClosed (next ∷ rest) h.1))

module _ (casefold : String → String) where
  prepared-IsClosed :
      (value : Option String) (prepared : String)
      → prepare_text casefold value ≡ some prepared
      → IsClosed prepared
  unfolding prepare_text strip
  prepared-IsClosed none prepared h = absurd (ground arith)
  prepared-IsClosed (some value) prepared h =
      let kept = strip (strip_fence_delimiters value) in
      let closed : IsClosed kept =
        rstrip-IsClosed (lstrip (strip_fence_delimiters value))
          (lstrip-IsClosed (strip_fence_delimiters value) (fence_stays_open value)) in
      elim (Bool-cases (should_omit_text casefold kept)) [
        | inl omitted ↦ absurd (ground arith)
        | inr given ↦ let same : kept ≡ prepared = ground arith in rw (← same) closed
      ]

  items-IsClosed : (values : List (Option String)) → All IsClosed (prepare_items casefold values)
  unfolding prepare_items
  items-IsClosed [] = tt
  items-IsClosed (item ∷ rest) = elim (Option-cases (prepare_text casefold item)) [
    | inl omitted ↦ rw (omitted, All) (items-IsClosed rest)
    | inr (prepared, e) ↦ rw (e, All) (prepared-IsClosed item prepared e, items-IsClosed rest)
  ]

  list-IsClosed : (value : Value) → All IsClosed (prepare_list casefold value)
  unfolding prepare_list
  list-IsClosed absent = tt
  list-IsClosed (text value) = elim (Option-cases (prepare_text casefold (some value))) [
    | inl omitted ↦ rw (omitted, All) tt
    | inr (prepared, e) ↦ rw (e, All) (prepared-IsClosed (some value) prepared e, tt)
  ]
  list-IsClosed (items shown values) = items-IsClosed values

  bullets-IsClosed :
      (prepared : List String)
      → All IsClosed prepared
      → All IsClosed (map (λ item. concat "- " item) prepared)
  bullets-IsClosed [] h = tt
  bullets-IsClosed (item ∷ rest) h = (label-IsClosed "- " item refl h.0, bullets-IsClosed rest h.1)

  line-IsClosed :
      (label value : String)
      → has_sign label ≡ false
      → All IsClosed (prepared_line casefold label value)
  unfolding prepared_line joined has_triple
  line-IsClosed label value h = elim (Option-cases (prepare_text casefold (some value))) [
    | inl omitted ↦ rw (omitted, All) tt
    | inr (prepared, e) ↦
        rw (e, All)
          (
            label-IsClosed label (concat ": " (concat prepared "")) h (
                label-IsClosed ": " (concat prepared "") refl (
                  append-IsClosed prepared "" refl (prepared-IsClosed (some value) prepared e)
                    refl)),
            tt,
          )
  ]

  text-IsClosed :
      (label : String) (value : Value)
      → has_sign label ≡ false
      → All IsClosed (text_line casefold label value)
  text-IsClosed label absent h = tt
  text-IsClosed label (text value) h = line-IsClosed label value h
  text-IsClosed label (items shown values) h = line-IsClosed label shown h

  questions-IsClosed :
      (prepared : List String)
      → All IsClosed prepared
      → All IsClosed (question_lines casefold prepared)
  unfolding question_lines has_triple
  questions-IsClosed [] h = tt
  questions-IsClosed (item ∷ rest) h = (refl, bullets-IsClosed (item ∷ rest) h)

  lines-IsClosed : (source : Metadata) → All IsClosed (metadata_lines casefold source)
  unfolding metadata_lines
  lines-IsClosed source =
      let name = text-IsClosed "Client name" source.client_name refl in
      let place = text-IsClosed "Location" source.location refl in
      let service = text-IsClosed "Service type" source.service_type refl in
      let scope = text-IsClosed "Scope" source.scope refl in
      let deadline = text-IsClosed "Deadline" source.deadline refl in
      let budget = text-IsClosed "Budget range" source.budget_range refl in
      let questions =
        questions-IsClosed (prepare_list casefold source.open_questions)
          (list-IsClosed source.open_questions) in
      All-append IsClosed _ _ name (
        All-append IsClosed _ _ place (
          All-append IsClosed _ _ service (
            All-append IsClosed _ _ scope
              (All-append IsClosed _ _ deadline (All-append IsClosed _ _ budget questions)))))

  -- Whatever the metadata of a request are, its block in a prompt either says that there are none, or
  -- is a text between the opening and the closing fence in which three greater-than signs, of which the
  -- closing fence is made, do not stand; nor do they stand in the block of the key aspects.
  pub fences_hold :
      (source : Metadata) (aspects : List (Option String))
      → ((format_metadata_for_prompt casefold source ≡ "(no metadata extracts)")
          ⊎ ((body : String) × (format_metadata_for_prompt casefold source
                ≡ joined (fence_open ∷ "\n" ∷ body ∷ "\n" ∷ fence_close ∷ []))
              × IsClosed body))
        × IsClosed (format_key_aspects_for_prompt casefold aspects)
  unfolding format_metadata_for_prompt format_key_aspects_for_prompt
  fences_hold source aspects = (
    elim (List-cases (metadata_lines casefold source)) [
      | inl nothing ↦ inl (rw (nothing, format_metadata_for_prompt) refl)
      | inr (line, rest, e) ↦ inr (
        join "\n" (line ∷ rest),
        rw (e, format_metadata_for_prompt) refl,
        join-IsClosed (line ∷ rest) (subst (All IsClosed) e (lines-IsClosed source)),
      )
    ],
    join-IsClosed (map (λ item. concat "- " item) (prepare_items casefold aspects))
        (bullets-IsClosed (prepare_items casefold aspects) (items-IsClosed aspects)),
  )
