-- ===== src/Rfp/Evaluators.antt =====
-- data/pipelines/rfp_intake/response_evaluators.py: the checks of a department's draft.
use brasaland_digital.Base.{
  ℕ, zero, suc, Bool, false, not, ◌&&◌, ◌||◌, Option, some, none, is_some, List, [], ◌∷◌, ◌++◌,
  String, map, ◌==◌, ltb, is_blank, is_empty, strip, decimal, int_of, select, find, if◌then◌else◌,
}
use brasaland_digital.Base.Regex.{Pattern, Match, Engine, joined}
use brasaland_digital.Rfp.Patterns.{
  price_token_re, setup_sla_re, budget_amount_re, usd_marker, cop_marker, validity,
  competitor_denylist,
}
use brasaland_digital.Base.Affixes.{replace_char, occurs_in, join}

-- Floats, with the order and the product of Python, the metrics of textstat, and the engine of `re`.
pub record Metrics : Type 1 where
  pub Number : Type 0
  pub re : Engine
  pub lower : String → String
  -- `float(text)`; `none` is the `ValueError`.
  pub to_float : String → Option Number
  pub whole : ℕ → Number
  pub less : Number → Number → Bool
  pub times : Number → Number → Number
  pub show : Number → String
  pub flesch_reading_ease : String → Number
  pub flesch_kincaid_grade : String → Number

abbrev pub brand_pillars : List String
brand_pillars = "consistent quality" ∷ "warm experience" ∷ "speed of service" ∷ []

-- `m.group(i + 1)`; `none` is a group that took no part.
abbrev pub group_at : ℕ → List (Option String) → Option String
group_at i [] = none
group_at zero (g ∷ rest) = g
group_at (suc i) (g ∷ rest) = group_at i rest

abbrev pub or_empty : Option String → String
or_empty none = ""
or_empty (some text) = text

-- `repr` of a text without quotation marks or backslashes, but for an apostrophe.
abbrev repr_name : String → String
repr_name name =
    if occurs_in "'" name then joined ("\"" ∷ name ∷ "\"" ∷ []) else joined ("'" ∷ name ∷ "'" ∷ [])

pub record Relevance : Type 0 where
  pub passes : Bool
  pub missing_aspects : List String

pub record Compliance : Type 0 where
  pub passes : Bool
  pub rule_ids : List String
  pub violations : List String
  pub ceo_approval_required : Bool

module _ (metrics : Metrics) where
  pub record Readability : Type 0 where
    pub passes : Bool
    pub flesch : metrics.Number
    pub grade : metrics.Number

  -- `x <= y`
  abbrev pub at_most : metrics.Number → metrics.Number → Bool
  at_most x y = not (metrics.less y x)

  unfoldable pub evaluate_readability : String → Readability
  evaluate_readability draft =
      let sample = if is_blank draft then " " else draft in
      let flesch = metrics.flesch_reading_ease sample in
      let grade = metrics.flesch_kincaid_grade sample in
      record {
        passes = at_most (metrics.whole 30) flesch && at_most grade (metrics.whole 16);
        flesch = flesch;
        grade = grade;
      }

  -- The aspects that the draft does not name; a blank aspect is passed over.
  abbrev pub is_missing : String → String → Bool
  is_missing haystack aspect =
      not (is_blank (strip aspect)) && not (occurs_in (metrics.lower (strip aspect)) haystack)

  unfoldable pub evaluate_relevance : String → List String → Relevance
  evaluate_relevance draft key_aspects =
      let missing = select (is_missing (metrics.lower draft)) key_aspects in
      record { passes = is_empty missing; missing_aspects = missing }

  -- The amount that a match of the budget names.
  unfoldable pub amount_of : Match → Option metrics.Number
  amount_of m =
      let suffix = metrics.lower (or_empty (group_at 1 m.groups)) in
      elim (metrics.to_float (replace_char "," "" (or_empty (group_at 0 m.groups)))) [
        | none ↦ none
        | some value ↦ some (
            if suffix == "k"
            then metrics.times value (metrics.whole 1000)
            else if suffix == "m"
            then metrics.times value (metrics.whole 1000000)
            else value)
      ]

  -- The greatest amount, from `best` on.
  unfoldable pub greatest : Option metrics.Number → List Match → Option metrics.Number
  greatest best [] = best
  greatest best (m ∷ rest) = elim (amount_of m) [
    | none ↦ greatest best rest
    | some value ↦ elim best [
      | none ↦ greatest (some value) rest
      | some b ↦ greatest (some (if metrics.less b value then value else b)) rest
    ]
  ]

  unfoldable pub parse_budget_usd_ceiling : Option String → Option metrics.Number
  parse_budget_usd_ceiling budget_range =
      let text = strip (or_empty budget_range) in
      if is_blank text then none else greatest none (metrics.re.find_all budget_amount_re text)

  abbrev pub occurs : Pattern → String → Bool
  occurs p text = is_some (metrics.re.search p text)

  -- A failed rule with its violation, or nothing.
  abbrev Finding : Type 0
  Finding = List (String × String)

  unfoldable pub dual_currency : String → Finding
  dual_currency text =
      if occurs price_token_re text && not (occurs usd_marker text && occurs cop_marker text)
      then (
        "dual_currency",
        "Every price must appear in both COP and USD (explicit COP and USD markers).",
      )
        ∷ []
      else []

  unfoldable pub missing_pillars : String → Finding
  missing_pillars lower =
      let missing = select (λ p. not (occurs_in p lower)) brand_pillars in
      if is_empty missing
      then []
      else ("brand_pillars", joined ("Missing brand pillar(s): " ∷ join ", " missing ∷ "." ∷ []))
        ∷ []

  -- The first promise of fewer than ten days; a match has one or two digits in one of its groups.
  unfoldable pub setup_sla : List Match → Finding
  setup_sla [] = []
  setup_sla (m ∷ rest) =
      let later = setup_sla rest in
      let first = or_empty (group_at 0 m.groups) in
      let raw = if is_blank first then or_empty (group_at 1 m.groups) else first in
      elim (int_of raw) [
        | none ↦ later
        | some days ↦
            if ltb days 10
            then (
              "setup_sla",
              joined (
                  "Setup/delivery must not be promised under 10 business days (found "
                  ∷ decimal days
                  ∷ ")."
                  ∷ []),
            )
              ∷ []
            else later
      ]

  -- The first competitor that is named, in the order of the list; the order of the frozenset, which is
  -- not fixed, decides only which one the message names.
  unfoldable pub no_competitors : String → Finding
  no_competitors lower = elim (find (λ name. occurs_in name lower) competitor_denylist) [
    | none ↦ []
    | some name ↦
        (
          "no_competitors",
          joined ("Proposal must not name competitor " ∷ repr_name name ∷ "." ∷ []),
        )
        ∷ []
  ]

  unfoldable pub offer_validity : String → String → Finding
  offer_validity text lower =
      if occurs validity text || (occurs_in "30 days" lower && occurs_in "valid" lower)
      then []
      else (
        "offer_validity", "Proposal must include an offer validity period (30 days from issuance).",
      )
        ∷ []

  unfoldable pub failed_rules : String → Finding
  failed_rules text =
      let lower = metrics.lower text in
      dual_currency text
      ++ (missing_pillars lower
          ++ (setup_sla (metrics.re.find_all setup_sla_re text)
              ++ (no_competitors lower ++ offer_validity text lower)))

  -- `ceiling is not None and ceiling > 50_000`
  unfoldable pub is_above_ceo_threshold : Option metrics.Number → Bool
  is_above_ceo_threshold none = false
  is_above_ceo_threshold (some ceiling) = metrics.less (metrics.whole 50000) ceiling

  unfoldable pub evaluate_compliance : String → Option String → Compliance
  evaluate_compliance draft budget_range =
      let failed = failed_rules draft in
      record {
        passes = is_empty failed;
        rule_ids = map (λ f. f.0) failed;
        violations = map (λ f. f.1) failed;
        ceo_approval_required = is_above_ceo_threshold (parse_budget_usd_ceiling budget_range);
      }

  unfoldable pub build_feedback : Readability → Relevance → Compliance → String
  build_feedback readability relevance compliance =
      let readable =
        if readability.passes
        then []
        else joined (
            "Improve readability "
            ∷ "(Flesch "
            ∷ metrics.show readability.flesch
            ∷ ", "
            ∷ "grade "
            ∷ metrics.show readability.grade
            ∷ "; "
            ∷ "need Flesch>=30.0 and grade<=16.0)."
            ∷ [])
          ∷ [] in
      let relevant =
        if relevance.passes
        then []
        else joined (
            "Incorporate these missing key aspects verbatim: "
            ∷ join "; " relevance.missing_aspects
            ∷ "."
            ∷ [])
          ∷ [] in
      let compliant = if compliance.passes then [] else compliance.violations in
      join " " (readable ++ (relevant ++ compliant))

  pub record EvaluationResult : Type 0 where
    pub department_id : String
    pub readability : Readability
    pub relevance : Relevance
    pub compliance : Compliance
    pub overall_pass : Bool
    pub feedback_for_generator : String
    pub iterations : ℕ
    pub is_exhausted : Bool
    pub needs_human_review : Bool
    pub ceo_approval_required : Bool

  unfoldable pub evaluate_all : String → List String → Option String → String → EvaluationResult
  evaluate_all draft key_aspects budget_range department_id =
      let readability = evaluate_readability draft in
      let relevance = evaluate_relevance draft key_aspects in
      let compliance = evaluate_compliance draft budget_range in
      let overall = readability.passes && relevance.passes && compliance.passes in
      record {
        department_id = department_id;
        readability = readability;
        relevance = relevance;
        compliance = compliance;
        overall_pass = overall;
        feedback_for_generator =
            if overall then "" else build_feedback readability relevance compliance;
        iterations = 1;
        is_exhausted = false;
        needs_human_review = false;
        ceo_approval_required = compliance.ceo_approval_required;
      }
