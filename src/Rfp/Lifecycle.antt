-- ===== src/Rfp/Lifecycle.antt =====
-- data/pipelines/rfp_intake/lifecycle.py: the statuses of a request and their changes.
pub mod Order
use brasaland_digital.Base.{
  not, true, false, Bool, List, [], ◌∷◌, String, ◌==◌, contains, is_empty, concat, if◌then◌else◌,
  Option, some, none,
}

abbrev pub rfp_statuses : List String
rfp_statuses =
    "analyzing" ∷ "discarded" ∷ "intake_complete" ∷ "drafting" ∷ "under_evaluation"
    ∷ "waiting_for_approval" ∷ "done" ∷ []

-- `RFP_ALLOWED_TRANSITIONS[current]`
unfoldable pub rfp_allowed_transitions : String → List String
rfp_allowed_transitions current =
    if current == "analyzing"
    then "discarded" ∷ "intake_complete" ∷ []
    else if current == "intake_complete"
    then "drafting" ∷ []
    else if current == "drafting"
    then "under_evaluation" ∷ []
    else if current == "under_evaluation"
    then "waiting_for_approval" ∷ []
    else if current == "waiting_for_approval"
    then "done" ∷ []
    else []

pub record TransitionResult : Type 0 where
  pub is_allowed : Bool
  pub message : Option String

abbrev pub refused : String → TransitionResult
refused message = record { is_allowed = false; message = some message }

-- `f"{text}'{status}'"`
abbrev quoting : String → String → String
quoting text status = concat text (concat "'" (concat status "'"))

unfoldable pub validate_transition : String → String → TransitionResult
unfolding rfp_allowed_transitions
validate_transition current target =
    if not (contains current rfp_statuses)
    then refused (quoting "unknown current status " current)
    else if not (contains target rfp_statuses)
    then refused (quoting "unknown target status " target)
    else if current == target
    then refused (quoting "status is already " current)
    else if is_empty (rfp_allowed_transitions current)
    then refused (quoting "cannot transition from a terminal state " current)
    else if contains target (rfp_allowed_transitions current)
    then record { is_allowed = true; message = none }
    else refused (concat (quoting "" current) (quoting " cannot transition to " target))
