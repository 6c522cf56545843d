-- ===== src/Rfp/Approval.antt =====
-- data/pipelines/rfp_intake/approval_graph.py: one department's section, approved by a person or
-- written again by a language model, at most three times.
pub mod Ending
use brasaland_digital.Base.{
  ℕ, suc, Bool, true, false, not, ◌&&◌, ◌||◌, Option, some, none, is_some, List, [], ◌∷◌, ◌++◌,
  String, ◌==◌, eqb, leb, is_blank, strip, concat, decimal, if◌then◌else◌, Result, ok, err,
}
use brasaland_digital.Base.Regex.{joined}
use brasaland_digital.Base.Affixes.{join}

-- A value of the parsed answer: missing, a Boolean, a number, or another value by its `str`.
pub data Raw (Number : Type 0) : Type 0 where
  missing : Raw Number
  boolean : Bool → Raw Number
  number : Number → Raw Number
  other : String → Raw Number

-- What `generate_json` gives: no `dict`, or one with these keys.
pub data Parsed (Number : Type 0) : Type 0 where
  no_dict : Parsed Number
  parsed : Option String → (cost setup_days price_per_cover : Raw Number) → Parsed Number

-- What the person answers to the interrupt: a text, or a `dict`.
pub data Decision : Type 0 where
  said : String → Decision
  mapping : (action decision feedback : Option String) → Decision

pub record Env : Type 1 where
  pub Number : Type 0
  -- `float(text)`; `none` is the `ValueError`.
  pub to_float : String → Option Number
  -- The language model, asked with the two prompts; an error is any exception.
  pub generate_json : String → String → Result (Unit {0}) (Parsed Number)
  -- `repr`
  pub repr : Decision → String

pub record Section (Number : Type 0) : Type 0 where
  pub draft_content : Option String
  pub cost : Option Number
  pub setup_days : Option Number
  pub price_per_cover : Option Number
  pub needs_regen : Bool
  pub forced_request_changes : Bool
  pub arbiter_feedback : Option String
  pub human_feedback : Option String

-- An entry of the trace, without its timestamp.
pub record TraceEntry : Type 0 where
  pub agent : String
  pub input : String
  pub output : String

pub record DeptApprovalState (Number : Type 0) : Type 0 where
  pub department : String
  pub section : Section Number
  pub rework_count : ℕ
  pub outcome : Option String
  pub error : Option String
  pub trace : List TraceEntry

abbrev pub iteration_limit : ℕ
iteration_limit = 3

-- `DEPARTMENT_OWNERS.get(department, department)`
unfoldable pub owner_of : String → String
owner_of department =
    if department == "marketing"
    then "Camila Ospina"
    else if department == "operaciones"
    then "Felipe Guerrero"
    else if department == "procurement"
    then "Lucía Fernández"
    else if department == "training"
    then "Jake Morrison"
    else department

abbrev pub draft_prose_style_rules : String
draft_prose_style_rules = joined (
    "Write client-facing prose. Weave metadata values into sentences. "
    ∷ "Never copy field labels, keys, None, null, or sentinels "
    ∷ "(\"not stated\", \"n/a\"). Omit missing figures silently unless a compliance "
    ∷ "rule requires acknowledging a gap — then use one natural phrase such as "
    ∷ "\"final figure to be confirmed\", never null or not stated." ∷ [])

-- `x or ""`
abbrev pub text_of : Option String → String
text_of none = ""
text_of (some text) = text

abbrev truth : Bool → String
truth b = if b then "True" else "False"

-- The action of a decision; `none` is the mapping itself, which equals no text.
unfoldable pub action_of : Decision → Option String
action_of (said text) = some text
action_of (mapping action decision feedback) =
    if not (is_blank (text_of action))
    then action
    else if not (is_blank (text_of decision))
    then decision
    else none

-- What `action!r` shows.
abbrev shown : Decision → Decision
shown d = elim (action_of d) [ none ↦ d | some action ↦ said action ]

abbrev pub feedback_of : Decision → Option String
feedback_of (said text) = none
feedback_of (mapping action decision feedback) =
    if is_blank (text_of feedback) then none else feedback

-- `action in ("reject", "request_changes")`
abbrev pub asks_for_changes : String → Bool
asks_for_changes action = action == "reject" || action == "request_changes"

module _ (env : Env) where
  abbrev pub State : Type 0
  State = DeptApprovalState env.Number

  -- The section that is to be written again.
  abbrev stamped : Decision → Section env.Number → Section env.Number
  stamped d section = record section {
    needs_regen = true;
    human_feedback = elim (feedback_of d) [ none ↦ section.human_feedback | some text ↦ some text ];
  }

  abbrev approve_entry : Decision → State → String → TraceEntry
  approve_entry d state output = record {
    agent = "approve";
    input = joined (
        "dept="
        ∷ state.department
        ∷ " rework_count="
        ∷ decimal state.rework_count
        ∷ " action="
        ∷ env.repr (shown d)
        ∷ []);
    output = output;
  }

  -- The state with the updates of a node that settles the outcome.
  abbrev settled : Decision → State → String → State
  settled d state outcome = record state {
    outcome = some outcome;
    trace = state.trace ++ approve_entry d state (concat "outcome=" outcome) ∷ [];
  }

  -- The node that waits for the decision of a person.
  unfoldable pub approve_node : Decision → State → State
  approve_node d state =
      let action = text_of (action_of d) in
      let unknown = concat "unknown:" (env.repr (shown d)) in
      if is_some (action_of d) && action == "approve"
      then settled d state "approved"
      else if is_some (action_of d) && asks_for_changes action
      then if leb iteration_limit state.rework_count
        then settled d state "exhausted"
        else record state {
          section = stamped d state.section;
          trace = state.trace ++ approve_entry d state "needs_regen=true" ∷ [];
        }
      else record (settled d state unknown) {
        error = some (concat "unknown approval decision: " (env.repr (shown d)));
      }

  abbrev pub coerce : Raw env.Number → Option env.Number
  coerce missing = none
  coerce (boolean b) = none
  coerce (number n) = some n
  coerce (other text) = env.to_float (strip text)

  -- The feedback of the arbiter and of the person, in lines.
  abbrev pub feedback_lines : Section env.Number → String
  feedback_lines section =
      let arbiter = strip (text_of section.arbiter_feedback) in
      let human = strip (text_of section.human_feedback) in
      if is_blank arbiter
      then human
      else if is_blank human
      then arbiter
      else joined (arbiter ∷ "\n" ∷ human ∷ [])

  unfoldable pub system_prompt : String → String
  system_prompt department = joined (
      "You revise the "
      ∷ department
      ∷ " department proposal section for Brasaland "
      ∷ "(owner: "
      ∷ owner_of department
      ∷ "). Address the feedback.\n\n"
      ∷ draft_prose_style_rules
      ∷ "\n\n"
      ∷ "Respond with JSON only: "
      ∷ "{\"draft_content\": str, \"cost\": number|null, \"setup_days\": number|null, "
      ∷ "\"price_per_cover\": number|null}. "
      ∷ "For the JSON fields cost, setup_days, and price_per_cover only, use JSON "
      ∷ "null when that number is not stated in the revised draft. Do not put the "
      ∷ "words null, None, or not stated inside draft_content."
      ∷ [])

  unfoldable pub user_prompt : Section env.Number → String
  user_prompt section =
      let feedback = feedback_lines section in
      joined (
        "Prior draft:\n"
        ∷ text_of section.draft_content
        ∷ "\n\n"
        ∷ "Feedback to address:\n"
        ∷ (if is_blank feedback then "(none)" else feedback)
        ∷ [])

  -- The section with the new draft, or the old one where the new one is blank.
  abbrev redrafted :
      String → (cost setup_days price : Option env.Number) → Section env.Number → Section env.Number
  redrafted draft cost setup_days price section = record section {
    draft_content = some (if is_blank draft then text_of section.draft_content else draft);
    cost = cost;
    setup_days = setup_days;
    price_per_cover = price;
    needs_regen = false;
    forced_request_changes = false;
  }

  -- The section after the answer of the language model.
  unfoldable pub merged :
      Result (Unit {0}) (Parsed env.Number) → Section env.Number → Section env.Number
  merged (err e) section = redrafted (text_of section.draft_content) none none none section
  merged (ok no_dict) section = redrafted "" none none none section
  merged (ok (parsed draft cost setup_days price)) section =
      redrafted (strip (text_of draft)) (coerce cost) (coerce setup_days) (coerce price) section

  -- The node that asks the language model for a new draft.
  unfoldable pub regen_node : State → State
  regen_node state =
      let count = suc state.rework_count in
      record state {
        section =
            merged (env.generate_json (system_prompt state.department) (user_prompt state.section))
              state.section;
        rework_count = count;
        trace =
            state.trace
            ++ record {
              agent = "regen";
              input = joined (
                  "dept="
                  ∷ state.department
                  ∷ " rework_count="
                  ∷ decimal count
                  ∷ " "
                  ∷ "has_feedback="
                  ∷ truth (not (is_blank (feedback_lines state.section)))
                  ∷ []);
              output = "regenerated draft";
            }
              ∷ [];
      }

  -- Whether the graph goes on to the regeneration; else it ends.
  unfoldable pub route_after_approve : State → Bool
  route_after_approve state =
      if not (is_blank (text_of state.outcome)) then false else state.section.needs_regen

  -- The graph from its node approve on: each decision resumes it. It ends, or waits for a decision.
  unfoldable pub run_graph : List Decision → State → State
  run_graph [] state = state
  run_graph (d ∷ rest) state =
      let decided = approve_node d state in
      let later = run_graph rest (regen_node decided) in
      if route_after_approve decided then later else decided
