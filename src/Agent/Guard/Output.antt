-- ===== src/Agent/Guard/Output.antt =====
-- data/pipelines/guardrails.py: the checks of what tools return and of the answer.
use brasaland_digital.Base.{
  Bool, true, false, not, Option, some, none, List, [], ◌∷◌, String, is_blank, is_empty, strip,
  concat, contains, select, if◌then◌else◌,
}
use brasaland_digital.Base.Regex.{Pattern, joined}
use brasaland_digital.Base.Affixes.{join}
use brasaland_digital.Agent.Env.{Env}
use brasaland_digital.Agent.Guard.Patterns.{prompt_leak}
use brasaland_digital.Agent.Guard.Input.{
  structural, security, block, GuardDecision, refusal, passing, output_safe_refusal,
  sensitive_data_refusal, occurs,
}

abbrev pub incident_required : List String
incident_required = "id" ∷ "source_incident_id" ∷ "status" ∷ "category" ∷ "origin" ∷ "branch" ∷ []

-- A row of a tool's payload: the keys of a `dict`, or another value.
pub data Row : Type 0 where
  row : List String → Row
  no_dict : Row

-- The value of `incidents`: a list, or no list.
pub data Incidents : Type 0 where
  listed : List Row → Incidents
  no_list : Incidents

-- What a tool returns: nothing, no `dict`, or a `dict` with the truth of its `ok`, if it has one.
pub data ToolResult : Type 0 where
  nothing : ToolResult
  no_payload : ToolResult
  payload : Option Bool → Incidents → ToolResult

-- A structural failure, which gives no answer.
abbrev pub malformed : String → GuardDecision
malformed reason = record {
  is_blocked = true;
  failure_type = some structural;
  action = block;
  answer = none;
  reason = some reason;
}

unfoldable pub missing_fields : List String → List String
missing_fields keys = select (λ f. not (contains f keys)) incident_required

-- The loop over the rows: the first one that is not well-formed decides.
unfoldable pub check_rows : List Row → GuardDecision
check_rows [] = passing none
check_rows (no_dict ∷ rest) = malformed "incident_not_dict"
check_rows (row keys ∷ rest) =
    let later = check_rows rest in
    if is_empty (missing_fields keys)
    then later
    else malformed (concat "incident_missing_fields:" (join "," (missing_fields keys)))

unfoldable pub validate_tool_result : ToolResult → GuardDecision
validate_tool_result nothing = passing none
validate_tool_result no_payload = malformed "tool_result_not_dict"
validate_tool_result (payload none incidents) = malformed "tool_result_missing_ok"
validate_tool_result (payload (some false) incidents) = passing none
validate_tool_result (payload (some true) no_list) = malformed "incidents_not_list"
validate_tool_result (payload (some true) (listed rows)) = check_rows rows

-- A formula of the house sauce with its quantities.
abbrev pub formula_in_output : Pattern
formula_in_output = record {
  source =
      joined ("house\\s+sauce.{0,80}(\\d+\\s*(g|kg|ml|cups?|tbsp|tsp)|exact\\s+proportions)" ∷ []);
  ignore_case = true;
  dot_all = true;
}

-- `none` is an answer that is no text.
unfoldable pub validate_output : Env → Option String → GuardDecision
validate_output env none = refusal structural block output_safe_refusal "empty_or_invalid_answer"
validate_output env (some answer) =
    if is_blank (strip answer)
    then refusal structural block output_safe_refusal "empty_or_invalid_answer"
    else if occurs env prompt_leak answer
    then refusal security block output_safe_refusal "prompt_leak"
    else if occurs env formula_in_output answer
    then refusal security block sensitive_data_refusal "sensitive_in_output"
    else passing none
