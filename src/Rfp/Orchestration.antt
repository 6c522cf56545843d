-- ===== src/Rfp/Orchestration.antt =====
-- data/pipelines/rfp_intake/approval_orchestration.py: the numbers of the sections, the stamps of the
-- arbitration, the decision of the CEO and the final document.
pub mod Stamps
use brasaland_digital.Base.{
  Bool, true, false, not, ◌&&◌, ◌||◌, Option, some, none, is_some, List, [], ◌∷◌, ◌++◌, String,
  ◌==◌, is_blank, is_empty, strip, contains, exists, find, select, map, if◌then◌else◌, Result, ok,
  err,
}
use brasaland_digital.Base.Dicts.{Dict, lookup, put}
use brasaland_digital.Base.Regex.{joined}
use brasaland_digital.Base.Affixes.{occurs_in}
use brasaland_digital.Rfp.Approval.{
  Env, Raw, Parsed, no_dict, parsed, Decision, said, mapping, action_of, text_of, coerce, owner_of,
}
use brasaland_digital.Rfp.Prompt.{format_key_aspects_for_prompt}
use brasaland_digital.Rfp.Evaluators.{Metrics}
use brasaland_digital.Rfp.Arbitration.{Payload, Sections, Arbitration}
use brasaland_digital.Rfp.Response.{all_departments}

-- The numbers of a section; all are missing where the language model does not answer.
pub record Numbers (Number : Type 0) : Type 0 where
  pub cost : Option Number
  pub setup_days : Option Number
  pub price_per_cover : Option Number

abbrev pub null_numbers : {Number : Type 0} → Numbers Number
null_numbers = record { cost = none; setup_days = none; price_per_cover = none }

-- What the extraction reads of a section.
pub record Draft : Type 0 where
  pub draft_content : Option String
  pub key_aspects : List (Option String)

module _ (env : Env) (casefold : String → String) where
  unfoldable pub extract_system_prompt : String → String
  extract_system_prompt department = joined (
      "You extract structured numbers from the "
      ∷ department
      ∷ " department "
      ∷ "proposal section for Brasaland (owner: "
      ∷ owner_of department
      ∷ "). "
      ∷ "Never invent absent figures — use null when a number is not stated. "
      ∷ "Respond with JSON only: "
      ∷ "{\"cost\": number|null, \"setup_days\": number|null, "
      ∷ "\"price_per_cover\": number|null}. "
      ∷ "cost = this section's economic/cost estimate if stated. "
      ∷ "setup_days = promised setup/delivery business days if stated. "
      ∷ "price_per_cover = implied per-cover price if stated "
      ∷ "(primarily operaciones; others usually null). "
      ∷ "Phrases like \"to be confirmed\" are not numbers — emit JSON null."
      ∷ [])

  unfoldable pub extract_user_prompt : String → Draft → String
  extract_user_prompt department section = joined (
      "Department: "
      ∷ department
      ∷ "\n"
      ∷ "Key aspects:\n"
      ∷ format_key_aspects_for_prompt casefold section.key_aspects
      ∷ "\n\n"
      ∷ "Draft content:\n"
      ∷ text_of section.draft_content
      ∷ [])

  unfoldable pub extract_section_numbers : String → Draft → Numbers env.Number
  extract_section_numbers department section =
      elim (env.generate_json (extract_system_prompt department)
        (extract_user_prompt department section)) [
          | err e ↦ null_numbers
          | ok no_dict ↦ null_numbers
          | ok (parsed draft cost setup_days price) ↦ record {
            cost = coerce env cost;
            setup_days = coerce env setup_days;
            price_per_cover = coerce env price;
          }
        ]

  -- A department without a section has an empty draft.
  unfoldable pub extract_all_sections :
      Dict Draft → List String → Dict (Numbers env.Number) → Dict (Numbers env.Number)
  extract_all_sections sections [] out = out
  extract_all_sections sections (department ∷ rest) out =
      let section : Draft = elim (lookup department sections) [
        | none ↦ record { draft_content = none; key_aspects = [] }
        | some s ↦ s
      ] in
      extract_all_sections sections rest
        (put department (extract_section_numbers department section) out)

module _ (metrics : Metrics) where
  -- The stamps in turn. A stamp has all the fields of its section, so it takes its place.
  unfoldable pub put_stamps : Dict (Payload metrics.Number) → Sections metrics → Sections metrics
  put_stamps [] merged = merged
  put_stamps (stamp ∷ rest) merged = put_stamps rest (put stamp.0 stamp.1 merged)

  unfoldable pub apply_arbitration_stamps :
      Sections metrics → Arbitration metrics → Sections metrics
  apply_arbitration_stamps sections arbitration = put_stamps arbitration.section_stamps sections

pub record CeoState : Type 0 where
  pub ceo_decision : Option String
  pub ceo_approved_at : Option String
  pub error : Option String

-- The node that waits for the CEO, with the time at which the decision arrives.
unfoldable pub ceo_interrupt_node : String → Decision → CeoState → CeoState
ceo_interrupt_node now decision state =
    let action = text_of (action_of decision) in
    if is_some (action_of decision) && (action == "approve" || action == "approved")
    then record state { ceo_decision = some "approved"; ceo_approved_at = some now }
    else record state { ceo_decision = some "rejected"; error = some "CEO rejected the proposal" }

-- The outcome of the approval of a department.
pub record ApprovalOutcome : Type 0 where
  pub department_id : String
  pub approver : Option String
  pub approved_at : Option String

pub record DocumentMetadata : Type 0 where
  pub client_name : Option String
  pub location : Option String
  pub service_type : Option String
  -- `str` of the budget, if it is given.
  pub budget_range : Option String
  pub open_questions : List String

pub record DocSection : Type 0 where
  pub department_id : String
  pub owner : String
  pub draft_content : Option String
  pub approval_stamp : Option String
  pub approver : String
  pub approved_at : Option String

pub record FinalDocument (metrics : Metrics) : Type 0 where
  pub client_name : Option String
  pub location : Option String
  pub service_type : Option String
  pub generated_at : String
  pub ticket_id : String
  pub sections : List DocSection
  pub arbitration : Arbitration metrics
  pub ceo_line : Option String
  pub total_estimated_value : Option String
  pub open_questions : List String

abbrev pub format_total_estimated_value : Option String → Option String
format_total_estimated_value budget_range =
    let text = strip (text_of budget_range) in if is_blank text then none else some text

-- The last outcome of a department: a later one takes the place of an earlier one.
unfoldable pub outcomes_of : List ApprovalOutcome → Dict ApprovalOutcome → Dict ApprovalOutcome
outcomes_of [] found = found
outcomes_of (o ∷ rest) found =
    outcomes_of rest (if is_blank o.department_id then found else put o.department_id o found)

-- A time that is given and not empty.
abbrev pub given_time : Option ApprovalOutcome → Option String
given_time none = none
given_time (some o) = if is_blank (text_of o.approved_at) then none else o.approved_at

unfoldable pub doc_section : Dict Draft → Dict ApprovalOutcome → String → DocSection
doc_section sections outcomes department =
    let outcome = lookup department outcomes in
    let owner = owner_of department in
    record {
      department_id = department;
      owner = owner;
      draft_content = elim (lookup department sections) [ none ↦ none | some s ↦ s.draft_content ];
      approval_stamp = elim (given_time outcome) [
        | none ↦ none
        | some time ↦ some (joined ("approved by " ∷ owner ∷ " at " ∷ time ∷ []))
      ];
      approver = elim outcome [
        | none ↦ owner
        | some o ↦ if is_blank (text_of o.approver) then owner else text_of o.approver
      ];
      approved_at = elim outcome [ none ↦ none | some o ↦ o.approved_at ];
    }

-- The departments that are asked for, or those that have a section.
abbrev pub departments_of : List String → Dict Draft → List String
departments_of needed sections =
    if is_empty needed
    then select (λ d. is_some (lookup d sections)) all_departments
    else select (λ d. contains d needed) all_departments

module _ (metrics : Metrics) (lower : String → String) where
  unfoldable pub ceo_line_of :
      String → Arbitration metrics → Option String → Option String → Option String
  ceo_line_of now arbitration ceo_decision ceo_approved_at =
      let at_time = if is_blank (text_of ceo_approved_at) then now else text_of ceo_approved_at in
      if arbitration.ceo_approval_required && text_of ceo_decision == "approved"
      then some (joined ("CEO approval: " ∷ "Mariana Restrepo" ∷ ", " ∷ at_time ∷ []))
      else none

  unfoldable pub questions_of : DocumentMetadata → List String
  questions_of meta =
      if is_blank (text_of meta.budget_range)
        && not (exists (λ q. occurs_in "budget" (lower q)) meta.open_questions)
      then meta.open_questions ++ "budget_range unstated" ∷ []
      else meta.open_questions

  -- Nothing where an error is given, or the CEO has rejected.
  unfoldable pub synthesize_final_document :
      String
      → String
      → Dict Draft
      → DocumentMetadata
      → Arbitration metrics
      → CeoState
      → List String
      → List ApprovalOutcome
      → Option (FinalDocument metrics)
  synthesize_final_document now ticket_id sections meta arbitration ceo needed outcomes =
      if not (is_blank (text_of ceo.error)) || text_of ceo.ceo_decision == "rejected"
      then none
      else some (record {
        client_name = meta.client_name;
        location = meta.location;
        service_type = meta.service_type;
        generated_at = now;
        ticket_id = ticket_id;
        sections =
            map (doc_section sections (outcomes_of outcomes [])) (departments_of needed sections);
        arbitration = arbitration;
        ceo_line = ceo_line_of now arbitration ceo.ceo_decision ceo.ceo_approved_at;
        total_estimated_value = format_total_estimated_value meta.budget_range;
        open_questions = questions_of meta;
      })
