-- ===== src/Agent/Guard/Input.antt =====
-- data/pipelines/guardrails.py: the classification of a question.
use brasaland_digital.Base.{
  Bool, true, false, ◌||◌, Option, some, none, is_some, String, is_blank, strip, if◌then◌else◌, [],
  ◌∷◌,
}
use brasaland_digital.Base.Regex.{Pattern, joined}
use brasaland_digital.Agent.Env.{Env}
use brasaland_digital.Agent.Guard.Patterns.{
  injection, personal_use, small_talk, recipe_fragment, supplier_price, payroll, in_domain_followup,
  location_operational, extraction_continuation,
}

pub data FailureType : Type 0 where
  structural : FailureType
  content : FailureType
  security : FailureType

pub data GuardAction : Type 0 where
  block : GuardAction
  redirect : GuardAction
  pass : GuardAction

pub record GuardDecision : Type 0 where
  pub is_blocked : Bool
  pub failure_type : Option FailureType
  pub action : GuardAction
  pub answer : Option String
  pub reason : Option String

abbrev pub personal_use_redirect : String
personal_use_redirect = joined (
    "I'm here to help with Brasaland's procedures and recipes. "
    ∷ "Do you have a question about your shift or preparation?" ∷ [])

abbrev pub sensitive_data_refusal : String
sensitive_data_refusal = joined (
    "I can't share proprietary formulas, supplier contract terms or prices, "
    ∷ "or payroll and performance information. "
    ∷ "I can help with Brasaland procedures, training topics, and the official manuals — "
    ∷ "what do you need for your shift?" ∷ [])

abbrev pub injection_refusal : String
injection_refusal = joined (
    "I can't change my instructions or act outside Brasaland's rules. "
    ∷ "I'm here to help with Brasaland's procedures and recipes. "
    ∷ "Do you have a question about your shift or preparation?" ∷ [])

abbrev pub small_talk_reconnect : String
small_talk_reconnect = joined (
    "Glad you're here. At Brasaland we focus on consistent prep and service standards — "
    ∷ "what can I help you with for your shift or preparation?" ∷ [])

abbrev pub output_safe_refusal : String
output_safe_refusal = joined (
    "I can't share that. " ∷ "I'm here to help with Brasaland's procedures and recipes. "
    ∷ "Do you have a question about your shift or preparation?" ∷ [])

-- A decision that blocks, and one that lets pass.
abbrev pub refusal : FailureType → GuardAction → String → String → GuardDecision
refusal kind action answer reason = record {
  is_blocked = true;
  failure_type = some kind;
  action = action;
  answer = some answer;
  reason = some reason;
}

abbrev pub passing : Option String → GuardDecision
passing reason = record {
  is_blocked = false;
  failure_type = none;
  action = pass;
  answer = none;
  reason = reason;
}

module _ (env : Env) where
  -- `bool(pattern.search(text))`
  abbrev pub occurs : Pattern → String → Bool
  occurs p text = is_some (env.re.search p text)

  unfoldable pub is_injection_attempt : String → Bool
  is_injection_attempt question = occurs injection question

  unfoldable pub is_personal_use : String → Bool
  is_personal_use question = occurs personal_use question

  unfoldable pub is_small_talk : String → Bool
  is_small_talk question = is_some (env.re.starts small_talk (strip question))

  unfoldable pub is_recipe_fragment_extraction : String → Bool
  is_recipe_fragment_extraction question = occurs recipe_fragment question

  unfoldable pub is_supplier_price_request : String → Bool
  is_supplier_price_request question = occurs supplier_price question

  unfoldable pub is_payroll_request : String → Bool
  is_payroll_request question = occurs payroll question

  unfoldable pub is_sensitive_extraction : String → Bool
  is_sensitive_extraction question =
      is_recipe_fragment_extraction question
      || is_supplier_price_request question
      || is_payroll_request question

  unfoldable pub is_location_operational_query : String → Bool
  is_location_operational_query question = occurs location_operational question

  unfoldable pub is_extraction_continuation : String → Bool
  is_extraction_continuation question =
      let q = strip question in
      if is_blank q
      then false
      else if occurs in_domain_followup q || is_location_operational_query q
      then false
      else occurs extraction_continuation q

  unfoldable pub classify_input : String → GuardDecision
  classify_input q =
      if is_injection_attempt q
      then refusal security block injection_refusal "instruction_override"
      else if is_sensitive_extraction q
      then refusal security block sensitive_data_refusal "sensitive_extraction"
      else if is_personal_use q
      then refusal content redirect personal_use_redirect "personal_use"
      else if is_small_talk q
      then refusal content redirect small_talk_reconnect "small_talk_redirect"
      else if is_location_operational_query q
      then passing (some "location_operational")
      else passing none
