-- ===== src/Rfp/Arbitration.antt =====
-- data/pipelines/rfp_intake/arbitration.py: the fixed rules on the numbers of the sections.
pub mod Forced
use brasaland_digital.Base.{
  Bool, true, false, not, ◌&&◌, ◌||◌, Option, some, none, is_some, is_empty, List, [], ◌∷◌, ◌++◌,
  String, ◌==◌, map, exists, contains, select, sorted, strip, if◌then◌else◌,
}
use brasaland_digital.Base.Dicts.{Dict, lookup}
use brasaland_digital.Base.Regex.{joined}
use brasaland_digital.Base.Affixes.{occurs_in, starts_with, join}
use brasaland_digital.Rfp.Approval.{Raw, missing, boolean, number, other}
use brasaland_digital.Rfp.Evaluators.{Metrics, parse_budget_usd_ceiling, is_above_ceo_threshold}

-- What is read and stamped of a section; the flag is that of its evaluation.
pub record Payload (Number : Type 0) : Type 0 where
  pub cost : Raw Number
  pub setup_days : Raw Number
  pub price_per_cover : Raw Number
  pub ceo_approval_required : Bool
  pub forced_request_changes : Bool
  pub arbiter_feedback : Option String

-- A section that is not there: `{}`.
abbrev pub no_payload : {Number : Type 0} → Payload Number
no_payload = record {
  cost = missing;
  setup_days = missing;
  price_per_cover = missing;
  ceo_approval_required = false;
  forced_request_changes = false;
  arbiter_feedback = none;
}

module _ (metrics : Metrics) where
  pub data Trigger : Type 0 where
    setup_sla_breach : (department : String) (setup_days : metrics.Number) → Trigger
    cost_vs_feasibility : (price_per_cover procurement_cost : metrics.Number) → Trigger
    ceo_threshold : (ceiling : Option metrics.Number) (from_budget from_sections : Bool) → Trigger

  pub record Arbitration : Type 0 where
    pub triggers_fired : List Trigger
    pub forced_departments : List String
    pub ceo_approval_required : Bool
    pub resolutions : List String
    pub section_stamps : Dict (Payload metrics.Number)

  abbrev pub Sections : Type 0
  Sections = Dict (Payload metrics.Number)

  unfoldable pub as_number : Raw metrics.Number → Option metrics.Number
  as_number missing = none
  as_number (boolean b) = none
  as_number (number n) = some n
  as_number (other text) = metrics.to_float (strip text)

  -- The days of a section that are fewer than ten.
  unfoldable pub breach : Payload metrics.Number → Option metrics.Number
  breach payload = elim (as_number payload.setup_days) [
    | none ↦ none
    | some days ↦ if metrics.less days (metrics.whole 10) then some days else none
  ]

  -- The loop over the sections: the departments that promise too short a setup, with the days.
  unfoldable pub breaches : Sections → List (String × metrics.Number)
  breaches [] = []
  breaches (item ∷ rest) = elim (breach item.1) [
    | none ↦ breaches rest
    | some days ↦ (item.0, days) ∷ breaches rest
  ]

  abbrev pub payload_of : String → Sections → Payload metrics.Number
  payload_of department sections = elim (lookup department sections) [
    | none ↦ no_payload
    | some payload ↦ payload
  ]

  -- The price and the cost, where both are given and the cost is greater.
  unfoldable pub conflict : Sections → Option (metrics.Number × metrics.Number)
  conflict sections = elim (as_number (payload_of "operaciones" sections).price_per_cover) [
    | none ↦ none
    | some price ↦ elim (as_number (payload_of "procurement" sections).cost) [
      | none ↦ none
      | some cost ↦ if metrics.less price cost then some (price, cost) else none
    ]
  ]

  abbrev setup_resolution : String → String
  setup_resolution department = joined (
      "setup-sla-breach: force request_changes on " ∷ department ∷ " " ∷ "until setup_days>=" ∷ "10"
      ∷ [])

  abbrev cost_resolution : String
  cost_resolution = joined (
      "cost-vs-feasibility: procurement cost exceeds operaciones "
      ∷ "per-cover price — raise price or reduce scope "
      ∷ "(force request_changes on operaciones + procurement)" ∷ [])

  abbrev ceo_resolution : String
  ceo_resolution = "ceo-threshold: CEO (Mariana Restrepo) approval required before synthesis"

  -- The departments that the two rules force, each once.
  abbrev pub add_once : String → List String → List String
  add_once name names = if contains name names then names else name ∷ names

  unfoldable pub forced_set : List (String × metrics.Number) → Bool → List String
  forced_set [] false = []
  forced_set [] true = "operaciones" ∷ "procurement" ∷ []
  forced_set (b ∷ rest) costly = add_once b.0 (forced_set rest costly)

  -- The resolutions that a department is told.
  unfoldable pub relevant : String → List String → List String
  relevant department resolutions =
      select
        (λ r.
          occurs_in (joined ("on " ∷ department ∷ [])) r
          || (starts_with r "cost-vs-feasibility"
              && (department == "operaciones" || department == "procurement")))
        resolutions

  unfoldable pub stamp : Sections → List String → String → String × Payload metrics.Number
  stamp sections resolutions department =
      let told = join "; " (relevant department resolutions) in
      (
        department,
        record (payload_of department sections) {
          forced_request_changes = true;
          arbiter_feedback =
              some (
                if is_empty (relevant department resolutions) then join "; " resolutions else told);
        },
      )

  -- The budget as a text, or nothing.
  unfoldable pub run_arbitration : Sections → Option String → Arbitration
  run_arbitration sections budget_range =
      let short = breaches sections in
      let costly = conflict sections in
      let ceiling = parse_budget_usd_ceiling metrics budget_range in
      let from_budget = is_above_ceo_threshold metrics ceiling in
      let from_sections = exists (λ item. item.1.ceo_approval_required) sections in
      let ceo = from_budget || from_sections in
      let resolutions =
        map (λ b. setup_resolution b.0) short
        ++ ((if is_some costly then cost_resolution ∷ [] else [])
            ++ (if ceo then ceo_resolution ∷ [] else [])) in
      let forced = sorted (forced_set short (is_some costly)) in
      record {
        triggers_fired =
            map (λ b. setup_sla_breach b.0 b.1) short
            ++ (elim costly [ none ↦ [] | some c ↦ cost_vs_feasibility c.0 c.1 ∷ [] ]
                ++ (if ceo then ceo_threshold ceiling from_budget from_sections ∷ [] else []));
        forced_departments = forced;
        ceo_approval_required = ceo;
        resolutions = resolutions;
        section_stamps = map (stamp sections resolutions) forced;
      }
