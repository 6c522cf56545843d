-- ===== src/Rfp/Patterns.antt =====
-- The patterns of data/pipelines/rfp_intake/response_evaluators.py, and the competitors.
use brasaland_digital.Base.{true, false, List, [], ◌∷◌, String}
use brasaland_digital.Base.Regex.{Pattern, joined}

abbrev pub price_token_re : Pattern
price_token_re = record {
  source =
      joined
        ("(?:\\$\\s*\\d|\\d[\\d,]*(?:\\.\\d+)?\\s*(?:USD|COP)\\b|(?:USD|COP)\\s*\\$?\\s*\\d)" ∷ []);
  ignore_case = true;
  dot_all = false;
}

abbrev pub setup_sla_re : Pattern
setup_sla_re = record {
  source = joined (
      "(?:" ∷ "(?:setup|delivery|deliver|lead\\s*time)[^\\d]{0,40}(\\d{1,2})\\s*"
      ∷ "(?:business\\s+)?days?" ∷ "|" ∷ "(\\d{1,2})\\s*(?:business\\s+)?days?[^\\w]{0,40}"
      ∷ "(?:setup|delivery|deliver|lead\\s*time)" ∷ ")" ∷ []);
  ignore_case = true;
  dot_all = false;
}

abbrev pub budget_amount_re : Pattern
budget_amount_re = record {
  source = joined ("\\$?\\s*([\\d,]+(?:\\.\\d+)?)\\s*(k|m)?" ∷ []);
  ignore_case = true;
  dot_all = false;
}

abbrev pub usd_marker : Pattern
usd_marker = record { source = joined ("\\bUSD\\b" ∷ []); ignore_case = true; dot_all = false }

abbrev pub cop_marker : Pattern
cop_marker = record { source = joined ("\\bCOP\\b" ∷ []); ignore_case = true; dot_all = false }

abbrev pub validity : Pattern
validity = record {
  source =
      joined
        ("(offer\\s+valid|validity\\s+period|valid\\s+for\\s+30\\s+days|30\\s+days\\s+from)" ∷ []);
  ignore_case = true;
  dot_all = false;
}

abbrev pub competitor_denylist : List String
competitor_denylist =
    "mcdonald's" ∷ "mcdonalds" ∷ "burger king" ∷ "kfc" ∷ "subway" ∷ "chipotle" ∷ "starbucks"
    ∷ "dominos" ∷ "domino's" ∷ "pizza hut" ∷ "wendy's" ∷ "wendys" ∷ "taco bell" ∷ "arbys" ∷ "arby's"
    ∷ "sodexo" ∷ "compass group" ∷ "aramark" ∷ []
