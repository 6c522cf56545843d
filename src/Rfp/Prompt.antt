-- ===== src/Rfp/Prompt.antt =====
-- data/pipelines/rfp_intake/draft_prompt.py: what the language model is told of a request.
pub mod Fences
pub mod Fenced
use Prim.Native.Char.{Char, code}
use brasaland_digital.Base.{
  Bool, true, false, ◌&&◌, Option, some, none, List, [], ◌∷◌, ◌++◌, String, is_blank, strip, concat,
  eqb, contains, map, if◌then◌else◌,
}
use brasaland_digital.Base.Regex.{joined}
use brasaland_digital.Base.Affixes.{join}

-- A value of the metadata: none, a value by its `str`, or a list by its `str` and its values.
pub data Value : Type 0 where
  absent : Value
  text : String → Value
  items : String → List (Option String) → Value

pub record Metadata : Type 0 where
  pub client_name : Value
  pub location : Value
  pub service_type : Value
  pub scope : Value
  pub deadline : Value
  pub budget_range : Value
  pub open_questions : Value

abbrev pub omit_texts : List String
omit_texts = "none" ∷ "null" ∷ "not stated" ∷ []

abbrev pub fence_open : String
fence_open = "<<<METADATA>>>"

abbrev pub fence_close : String
fence_close = "<<<END METADATA>>>"

-- Three times the same character.
abbrev pub is_triple : Char → Char → Char → Char → Bool
is_triple c x y z = eqb (code c) (code x) && (eqb (code c) (code y) && eqb (code c) (code z))

-- `value.replace(c + c + c, "")`
unfoldable pub without_triples : Char → String → String
without_triples c String.[] = String.[]
without_triples c (String.◌∷◌ x String.[]) = String.◌∷◌ x String.[]
without_triples c (String.◌∷◌ x (String.◌∷◌ y String.[])) = String.◌∷◌ x (String.◌∷◌ y String.[])
without_triples c (String.◌∷◌ x (String.◌∷◌ y (String.◌∷◌ z s))) =
    let later = without_triples c s in
    let kept = String.◌∷◌ x (without_triples c (String.◌∷◌ y (String.◌∷◌ z s))) in
    if is_triple c x y z then later else kept

unfoldable pub strip_fence_delimiters : String → String
strip_fence_delimiters value = without_triples ">" (without_triples "<" value)

module _ (casefold : String → String) where
  unfoldable pub should_omit_text : String → Bool
  should_omit_text value =
      let stripped = strip value in
      if is_blank stripped then true else contains (casefold stripped) omit_texts

  unfoldable pub prepare_text : Option String → Option String
  prepare_text none = none
  prepare_text (some value) =
      let stripped = strip (strip_fence_delimiters value) in
      if should_omit_text stripped then none else some stripped

  unfoldable pub prepare_items : List (Option String) → List String
  prepare_items [] = []
  prepare_items (item ∷ rest) = elim (prepare_text item) [
    | none ↦ prepare_items rest
    | some prepared ↦ prepared ∷ prepare_items rest
  ]

  -- An empty list stands for `None`, which the callers treat alike.
  unfoldable pub prepare_list : Value → List String
  prepare_list absent = []
  prepare_list (text value) = elim (prepare_text (some value)) [
    | none ↦ []
    | some prepared ↦ prepared ∷ []
  ]
  prepare_list (items shown values) = prepare_items values

  -- The line of a key that is not a list.
  unfoldable pub prepared_line : String → String → List String
  prepared_line label value = elim (prepare_text (some value)) [
    | none ↦ []
    | some prepared ↦ joined (label ∷ ": " ∷ prepared ∷ []) ∷ []
  ]

  abbrev pub text_line : String → Value → List String
  text_line label absent = []
  text_line label (text value) = prepared_line label value
  text_line label (items shown values) = prepared_line label shown

  abbrev bullets : List String → List String
  bullets prepared = map (λ item. concat "- " item) prepared

  unfoldable pub question_lines : List String → List String
  question_lines [] = []
  question_lines (item ∷ rest) = "Open questions:" ∷ bullets (item ∷ rest)

  unfoldable pub metadata_lines : Metadata → List String
  metadata_lines source =
      text_line "Client name" source.client_name
      ++ (text_line "Location" source.location
          ++ (text_line "Service type" source.service_type
              ++ (text_line "Scope" source.scope
                  ++ (text_line "Deadline" source.deadline
                      ++ (text_line "Budget range" source.budget_range
                          ++ question_lines (prepare_list source.open_questions))))))

  unfoldable pub format_metadata_for_prompt : Metadata → String
  format_metadata_for_prompt source = elim (metadata_lines source) [
    | [] ↦ "(no metadata extracts)"
    | line ∷ rest ↦ joined (fence_open ∷ "\n" ∷ join "\n" (line ∷ rest) ∷ "\n" ∷ fence_close ∷ [])
  ]

  unfoldable pub format_key_aspects_for_prompt : List (Option String) → String
  format_key_aspects_for_prompt aspects = join "\n" (bullets (prepare_items aspects))
