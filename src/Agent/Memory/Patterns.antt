-- ===== src/Agent/Memory/Patterns.antt =====
-- The patterns of data/pipelines/memory_store.py.
use brasaland_digital.Base.{true, false, [], ◌∷◌}
use brasaland_digital.Base.Regex.{Pattern, joined}

abbrev pub email : Pattern
email = record {
  source = joined ("\\b[A-Za-z0-9._%+-]+@[A-Za-z0-9.-]+\\.[A-Za-z]{2,}\\b" ∷ []);
  ignore_case = false;
  dot_all = false;
}

abbrev pub phone : Pattern
phone = record {
  source = joined (
      "(?<!\\d)(?:\\+?\\d{1,3}[\\s.-]?)?(?:\\(?\\d{2,4}\\)?[\\s.-]?)?\\d{3,4}[\\s.-]?\\d{4}(?!\\d)"
      ∷ []);
  ignore_case = false;
  dot_all = false;
}

abbrev pub tokenish : Pattern
tokenish = record {
  source = joined (
      "\\b(eyJ[A-Za-z0-9_-]{10,}\\.[A-Za-z0-9_-]+\\.[A-Za-z0-9_-]+|" ∷ "sk-[A-Za-z0-9]{16,}|"
      ∷ "Bearer\\s+[A-Za-z0-9._\\-]+|" ∷ "api[_-]?key\\s*[:=]\\s*\\S+)\\b" ∷ []);
  ignore_case = true;
  dot_all = false;
}

abbrev pub payroll : Pattern
payroll = record {
  source = joined ("\\b(payroll|salary|wage|compensation|performance\\s+review)\\b" ∷ []);
  ignore_case = true;
  dot_all = false;
}

abbrev pub pii_name_email : Pattern
pii_name_email = record {
  source = joined (
      "\\b(customer\\s+(name|email|phone|address)|credit\\s+card|"
      ∷ "ssn|social\\s+security|payment\\s+details)\\b" ∷ []);
  ignore_case = true;
  dot_all = false;
}

abbrev pub proprietary : Pattern
proprietary = record {
  source = joined (
      "(" ∷ "house\\s+sauce.{0,40}(exact|proportion|formula|\\d+\\s*(g|ml|kg))|"
      ∷ "master\\s+recipe|" ∷ "proprietary\\s+(formula|recipe)|"
      ∷ "supplier\\s+(contract|negotiated)\\s+price|" ∷ "negotiated\\s+price" ∷ ")" ∷ []);
  ignore_case = true;
  dot_all = true;
}

abbrev pub loyalty_points : Pattern
loyalty_points = record {
  source = joined ("\\b(bronze|silver|gold)\\b.{0,40}?(\\d+)\\s*\\+?\\s*points?" ∷ []);
  ignore_case = true;
  dot_all = true;
}

abbrev pub status_claim : Pattern
status_claim = record {
  source =
      joined ("\\bstatus\\b.{0,24}\\b(open|in_progress|resolved|discarded|closed|pending)\\b" ∷ []);
  ignore_case = true;
  dot_all = false;
}
