-- ===== src/Shared.antt =====
-- packages/shared/brasaland_shared: the constants of an incident, the validation of its fields
-- (incident_validator.py) and the changes of its status (lifecycle.py).
pub mod Fields
pub mod Transitions
use brasaland_digital.Base.{
  Bool, true, false, not, ◌&&◌, Option, some, none, List, [], ◌∷◌, ◌++◌, String, ◌==◌, contains,
  is_blank, is_empty, strip, concat, if◌then◌else◌,
}

abbrev pub required_fields : List String
required_fields = "title" ∷ "description" ∷ "category" ∷ "status" ∷ "origin" ∷ "branch" ∷ []

abbrev pub valid_categories : List String
valid_categories =
    "QUEJA_CLIENTE" ∷ "EQUIPAMIENTO" ∷ "ABASTECIMIENTO" ∷ "CALIDAD_ALIMENTO" ∷ "PERSONAL" ∷ []

abbrev pub valid_statuses : List String
valid_statuses = "open" ∷ "in_progress" ∷ "resolved" ∷ "discarded" ∷ []

abbrev pub valid_origins : List String
valid_origins = "customer" ∷ "branch" ∷ "internal" ∷ []

abbrev pub valid_branches : List String
valid_branches =
    "COL-01" ∷ "COL-02" ∷ "COL-03" ∷ "COL-04" ∷ "COL-05" ∷ "COL-06" ∷ "COL-07" ∷ "COL-08" ∷ "COL-09"
    ∷ "COL-10" ∷ "FLA-01" ∷ "FLA-02" ∷ "FLA-03" ∷ "FLA-04" ∷ "Central" ∷ []

pub record FieldError : Type 0 where
  pub field : String
  pub message : String

-- A dict from names to texts, where `none` is the value `None`.
abbrev pub Payload : Type 0
Payload = List (String × Option String)

-- `data.get(name, "")`, and the empty text for `None`.
unfoldable pub value_of : String → Payload → String
value_of name [] = ""
value_of name ((key, none) ∷ rest) =
    let later = value_of name rest in if key == name then "" else later
value_of name ((key, some value) ∷ rest) =
    let later = value_of name rest in if key == name then value else later

unfoldable pub stripped_value : Payload → String → String
unfolding value_of
stripped_value payload name = strip (value_of name payload)

unfoldable pub required_errors : Payload → List String → List FieldError
required_errors payload [] = []
required_errors payload (name ∷ names) =
    let rest = required_errors payload names in
    if is_blank (stripped_value payload name)
    then record { field = name; message = concat name " is required" } ∷ rest
    else rest

-- `if value and value not in allowed: errors.append(...)`
unfoldable pub choice_errors : String → List String → String → List FieldError
choice_errors name allowed value =
    if not (is_blank value) && not (contains value allowed)
    then record { field = name; message = concat name " must be one of the allowed values" } ∷ []
    else []

unfoldable pub validate_incident_fields : Payload → List FieldError
validate_incident_fields payload =
    required_errors payload required_fields
    ++ choice_errors "category" valid_categories (stripped_value payload "category")
    ++ choice_errors "status" valid_statuses (stripped_value payload "status")
    ++ choice_errors "origin" valid_origins (stripped_value payload "origin")
    ++ choice_errors "branch" valid_branches (stripped_value payload "branch")

pub record TransitionResult : Type 0 where
  pub is_allowed : Bool
  pub message : Option String

abbrev refused : String → TransitionResult
refused message = record { is_allowed = false; message = some message }

-- `_ALLOWED_TRANSITIONS[current]`
unfoldable pub allowed_transitions : String → List String
allowed_transitions current =
    if current == "open"
    then "in_progress" ∷ "discarded" ∷ []
    else if current == "in_progress"
    then "resolved" ∷ "discarded" ∷ []
    else []

-- `f"{text}'{status}'"`
abbrev quoting : String → String → String
quoting text status = concat text (concat "'" (concat status "'"))

unfoldable pub validate_transition : String → String → TransitionResult
unfolding allowed_transitions
validate_transition current target =
    if not (contains current valid_statuses)
    then refused (quoting "unknown current status " current)
    else if not (contains target valid_statuses)
    then refused (quoting "unknown target status " target)
    else if current == target
    then refused (quoting "status is already " current)
    else if is_empty (allowed_transitions current)
    then refused (quoting "cannot transition from a terminal state " current)
    else if contains target (allowed_transitions current)
    then record { is_allowed = true; message = none }
    else if current == "open" && target == "resolved"
    then refused "open cannot move directly to resolved"
    else if current == "in_progress" && target == "open"
    then refused "in_progress cannot move back to open"
    else refused (concat (quoting "" current) (quoting " cannot transition to " target))
