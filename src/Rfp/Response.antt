-- ===== src/Rfp/Response.antt =====
-- data/pipelines/rfp_intake/response_graph.py: the workers that draft the sections of a proposal and
-- have them checked, at most three times.
pub mod Loop
use brasaland_digital.Base.{
  ℕ, zero, suc, Bool, true, false, not, Option, some, none, List, [], ◌∷◌, ◌++◌, String, ◌==◌,
  is_blank, strip, contains, map, if◌then◌else◌, Result, ok, err,
}
use brasaland_digital.Base.Regex.{joined}
use brasaland_digital.Base.Affixes.{join}
use brasaland_digital.Rfp.Approval.{owner_of, draft_prose_style_rules, iteration_limit}
use brasaland_digital.Rfp.Prompt.{
  Value, absent, text, items, Metadata, format_metadata_for_prompt, format_key_aspects_for_prompt,
}
use brasaland_digital.Rfp.Evaluators.{Metrics, EvaluationResult, evaluate_all, or_empty}

pub record Env : Type 1 where
  pub metrics : Metrics
  pub casefold : String → String
  -- The text of section 5 of CONTEXT-rfp.md.
  pub rulebook : String
  -- The language model, asked for the i-th time with the two prompts: the draft, if the answer has
  -- one, or the name of the class of the exception.
  pub generate_json : ℕ → String → String → Result String (Option String)

-- A section of the intake, with its aspects.
pub record InputSection : Type 0 where
  pub department_id : String
  pub key_aspects : Value

pub record ResponseState : Type 0 where
  pub metadata : Metadata
  pub departments_needed : List String
  pub input_sections : List InputSection

-- `[str(a) for a in aspects]` of a list, and nothing of another value.
abbrev pub aspect_texts : Value → List String
aspect_texts absent = []
aspect_texts (text value) = []
aspect_texts (items shown values) = map (λ v. elim v [ none ↦ "None" | some a ↦ a ]) values

-- The aspects of the first section of the department.
unfoldable pub key_aspects_for : String → List InputSection → List String
key_aspects_for department [] = []
key_aspects_for department (section ∷ rest) =
    let later = key_aspects_for department rest in
    if section.department_id == department then aspect_texts section.key_aspects else later

-- `str(budget_range)` unless it is None.
abbrev pub budget_text : Value → Option String
budget_text absent = none
budget_text (text value) = some value
budget_text (items shown values) = some shown

-- The departments in the order of their workers.
abbrev pub all_departments : List String
all_departments = "marketing" ∷ "operaciones" ∷ "procurement" ∷ "training" ∷ []

module _ (env : Env) where
  abbrev pub Evaluation : Type 0
  Evaluation = EvaluationResult env.metrics

  pub record DepartmentSection : Type 0 where
    pub department_id : String
    pub draft_content : String
    pub evaluation_results : Evaluation

  unfoldable pub compliance_requirements_prompt : String
  compliance_requirements_prompt = joined (
      env.rulebook ∷ "\n\n"
      ∷ "When drafting, you MUST satisfy all of the following (automatic checks):\n"
      ∷ "- State every price in BOTH Colombian Pesos (COP) and US Dollars (USD) — "
      ∷ "include the literal currency codes \"COP\" and \"USD\" next to each amount.\n"
      ∷ "- Mention all three brand pillars verbatim at least once: "
      ∷ "\"consistent quality\", \"warm experience\", \"speed of service\".\n"
      ∷ "- Include an offer validity period: state it is valid for 30 days from issuance.\n"
      ∷ "- Do not name any competitor.\n"
      ∷ "- Do not promise setup or delivery in under 10 business days.\n"
      ∷ "- Never invent figures not present in the metadata; if a needed figure is "
      ∷ "missing, acknowledge the gap in natural client language "
      ∷ "(e.g. \"final figure to be confirmed\"); never write null, None, or not stated." ∷ [])

  unfoldable pub draft_system_prompt : String → String
  draft_system_prompt department = joined (
      "You draft the "
      ∷ department
      ∷ " department proposal section for Brasaland "
      ∷ "(owner: "
      ∷ owner_of department
      ∷ "). Never invent absent figures. Respond with JSON only: "
      ∷ "{\"draft_content\": str}.\n\n"
      ∷ draft_prose_style_rules
      ∷ "\n\n"
      ∷ "Compliance requirements (your section will be automatically checked "
      ∷ "against these):\n"
      ∷ compliance_requirements_prompt
      ∷ [])

  unfoldable pub draft_user_prompt : Metadata → List String → String → String
  draft_user_prompt metadata aspects feedback = join "\n\n" (
      joined ("Metadata extracts:\n" ∷ format_metadata_for_prompt env.casefold metadata ∷ [])
      ∷ joined (
          "Key aspects to cover:\n"
          ∷ format_key_aspects_for_prompt env.casefold (map some aspects)
          ∷ [])
      ∷ (if is_blank feedback
          then []
          else joined ("Prior evaluator feedback to address:\n" ∷ feedback ∷ []) ∷ []))

  -- The draft of a round, or the text that stands for one that failed.
  unfoldable pub draft_of : String → Result String (Option String) → String
  draft_of department (ok draft) = strip (or_empty draft)
  draft_of department (err name) =
      joined (department ∷ " draft unavailable after generation error " ∷ "(" ∷ name ∷ ")." ∷ [])

  module _ (department : String) (metadata : Metadata) (aspects : List String) where
    unfoldable pub check : String → Evaluation
    check draft =
        evaluate_all env.metrics draft aspects (budget_text metadata.budget_range) department

    unfoldable pub next_draft : ℕ → String → String
    next_draft i feedback = draft_of department (
        env.generate_json i (draft_system_prompt department)
          (draft_user_prompt metadata aspects feedback))

    -- The loop from round `i` on, with the rounds that are left; without a break the section is left
    -- to a person.
    unfoldable pub rounds : ℕ → ℕ → String → Evaluation → DepartmentSection
    rounds i zero draft evaluation = record {
      department_id = department;
      draft_content = draft;
      evaluation_results = record evaluation { is_exhausted = true; needs_human_review = true };
    }
    rounds i (suc left) draft evaluation =
        let next = next_draft i evaluation.feedback_for_generator in
        let checked = record (check next) { iterations = i } in
        let later = rounds (suc i) left next checked in
        if checked.overall_pass
        then record {
          department_id = department;
          draft_content = next;
          evaluation_results = checked;
        }
        else later

  -- The first round has no feedback, whatever the check of an empty draft says.
  unfoldable pub draft_section : String → ResponseState → DepartmentSection
  draft_section department state =
      let aspects = key_aspects_for department state.input_sections in
      let start = record (check department state.metadata aspects "") {
        feedback_for_generator = "";
      } in
      rounds department state.metadata aspects 1 iteration_limit "" start

  unfoldable pub worker : String → ResponseState → List DepartmentSection
  worker department state =
      if contains department state.departments_needed
      then draft_section department state ∷ []
      else []

  -- The sections of all workers, as the graph joins them.
  unfoldable pub run_response : ResponseState → List DepartmentSection
  run_response state =
      worker "marketing" state
      ++ (worker "operaciones" state ++ (worker "procurement" state ++ worker "training" state))
