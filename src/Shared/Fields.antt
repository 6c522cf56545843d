-- ===== src/Shared/Fields.antt =====
-- What `validate_incident_fields` of packages/shared/brasaland_shared accepts.
use brasaland_digital.Base.{
  ◌≡◌, refl, ◌↔◌, true, false, List, [], ◌∷◌, ◌++◌, String, contains, is_blank, arith, All,
}
use brasaland_digital.Shared.{
  FieldError, Payload, required_fields, valid_categories, valid_statuses, valid_origins,
  valid_branches, stripped_value, required_errors, choice_errors, validate_incident_fields,
}

abbrev IsGiven : Payload → String → Type 0
IsGiven payload name = is_blank (stripped_value payload name) ≡ false

-- The value of a field, without the blanks around it, is one of the allowed ones.
abbrev IsAmong : Payload → String → List String → Type 0
IsAmong payload name allowed = contains (stripped_value payload name) allowed ≡ true

-- All six fields are given, and the four that have a list of values take one of it.
abbrev pub IsComplete : Payload → Type 0
IsComplete payload =
    All (IsGiven payload) required_fields
    × IsAmong payload "category" valid_categories
    × IsAmong payload "status" valid_statuses
    × IsAmong payload "origin" valid_origins
    × IsAmong payload "branch" valid_branches

append-empty_iff : (xs ys : List FieldError) → (xs ++ ys ≡ []) ↔ ((xs ≡ []) × (ys ≡ []))
append-empty_iff [] ys = (λ h. (refl, h), λ h. h.1)
append-empty_iff (x ∷ xs) ys = (λ h. absurd (ground arith), λ h. absurd (ground arith))

required_errors_iff :
    (payload : Payload) (names : List String)
    → (required_errors payload names ≡ []) ↔ All (IsGiven payload) names
unfolding required_errors
required_errors_iff payload [] = (λ h. tt, λ h. refl)
required_errors_iff payload (name ∷ names) = (
  λ h. ground (arith, required_errors_iff payload names),
  λ h. ground (arith, required_errors_iff payload names),
)

choice_errors_iff :
    (name value : String) (allowed : List String)
    → is_blank value ≡ false
    → (choice_errors name allowed value ≡ []) ↔ (contains value allowed ≡ true)
unfolding choice_errors
choice_errors_iff name value allowed given = (λ h. ground arith, λ h. ground arith)

choice_iff :
    (payload : Payload) (name : String) (allowed : List String)
    → IsGiven payload name
    → (choice_errors name allowed (stripped_value payload name) ≡ []) ↔ IsAmong payload name allowed
choice_iff payload name allowed given =
    choice_errors_iff name (stripped_value payload name) allowed given

five_empty_iff :
    (r c s o b : List FieldError)
    → (r ++ c ++ s ++ o ++ b ≡ []) ↔ ((r ≡ []) × (c ≡ []) × (s ≡ []) × (o ≡ []) × (b ≡ []))
five_empty_iff r c s o b = (
  λ h. grind (
    arith,
    append-empty_iff r (c ++ s ++ o ++ b),
    append-empty_iff c (s ++ o ++ b),
    append-empty_iff s (o ++ b),
    append-empty_iff o b,
  ),
  λ h. grind (
    arith,
    append-empty_iff r (c ++ s ++ o ++ b),
    append-empty_iff c (s ++ o ++ b),
    append-empty_iff s (o ++ b),
    append-empty_iff o b,
  ),
)

-- No error is reported exactly when all six fields are given, and category, status, origin and branch
-- take one of their values, each value read without the blanks around it.
pub validate_incident_fields_iff :
    (payload : Payload) → (validate_incident_fields payload ≡ []) ↔ IsComplete payload
unfolding validate_incident_fields
validate_incident_fields_iff payload = (
  λ h.
      let (r, c, s, o, b) = (five_empty_iff _ _ _ _ _).0 h in
      let (_, (_, (category, (status, (origin, (branch, _)))))) =
        (required_errors_iff payload required_fields).0 r in
      (
        (required_errors_iff payload required_fields).0 r,
        (choice_iff payload "category" valid_categories category).0 c,
        (choice_iff payload "status" valid_statuses status).0 s,
        (choice_iff payload "origin" valid_origins origin).0 o,
        (choice_iff payload "branch" valid_branches branch).0 b,
      ),
  λ h.
      let (_, (_, (category, (status, (origin, (branch, _)))))) = h.0 in
      (five_empty_iff _ _ _ _ _).1 (
        (required_errors_iff payload required_fields).1 h.0,
        (choice_iff payload "category" valid_categories category).1 h.1,
        (choice_iff payload "status" valid_statuses status).1 h.2,
        (choice_iff payload "origin" valid_origins origin).1 h.3,
        (choice_iff payload "branch" valid_branches branch).1 h.4,
      ),
)
