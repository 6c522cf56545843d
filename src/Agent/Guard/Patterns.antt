-- ===== src/Agent/Guard/Patterns.antt =====
-- The patterns of data/pipelines/guardrails.py.
use brasaland_digital.Base.{true, false, [], ◌∷◌}
use brasaland_digital.Base.Regex.{Pattern, joined}

abbrev pub injection : Pattern
injection = record {
  source = joined (
      "(ignore\\s+(all\\s+)?(your\\s+)?(previous|prior|above)\\s+instructions|"
      ∷ "forget\\s+(that\\s+)?you\\s+work\\s+for|"
      ∷ "forget\\s+(you'?re|you\\s+are)\\s+(a\\s+)?brasaland|"
      ∷ "act\\s+as\\s+(an?\\s+)?unrestricted|" ∷ "act\\s+with\\s+no\\s+rules|"
      ∷ "disregard\\s+(your\\s+)?(system\\s+)?(prompt|instructions)|"
      ∷ "you\\s+are\\s+now\\s+(dan|jailbroken|unrestricted))" ∷ []);
  ignore_case = true;
  dot_all = false;
}

abbrev pub personal_use : Pattern
personal_use = record {
  source = joined (
      "\\b(write\\s+(me\\s+)?(an?\\s+)?(poem|essay|homework)|" ∷ "do\\s+my\\s+homework|"
      ∷ "help\\s+me\\s+write\\s+(an?\\s+)?(poem|essay)|"
      ∷ "generate\\s+(some\\s+)?code\\s+for\\s+(my|another|a)\\s+project|" ∷ "personal\\s+advice|"
      ∷ "be\\s+my\\s+(therapist|life\\s+coach))\\b" ∷ []);
  ignore_case = true;
  dot_all = false;
}

abbrev pub small_talk : Pattern
small_talk = record {
  source = joined (
      "^\\s*(hi|hello|hey|good\\s+(morning|afternoon|evening)|"
      ∷ "how'?s\\s+(your\\s+)?(shift|day)|thanks|thank\\s+you|" ∷ "how\\s+are\\s+you)[\\s!.?]*$"
      ∷ []);
  ignore_case = true;
  dot_all = false;
}

abbrev pub recipe_fragment : Pattern
recipe_fragment = record {
  source = joined (
      "(" ∷ "master\\s+recipe|" ∷ "proprietary\\s+(formula|recipe)|"
      ∷ "(exact\\s+)?(quantit(?:y|ies)|proportions?|measurements?)\\b.*\\b(recipe|sauce|formula)|"
      ∷ "\\b(recipe|sauce|formula)\\b.*\\b(exact\\s+)?(quantit(?:y|ies)|proportions?|measurements?)|"
      ∷ "complete\\s+house\\s+sauce|" ∷ "house\\s+sauce\\s+recipe|"
      ∷ "(first|second|third|next|one)\\s+ingredient\\b.*\\b(house\\s+sauce|recipe|formula)|"
      ∷ "\\b(house\\s+sauce|master\\s+recipe|proprietary)\\b.*\\bingredient|"
      ∷ "ingredient\\b.*\\b(house\\s+sauce|master\\s+recipe)|"
      ∷ "what\\s+(is|are)\\s+the\\s+(first|second|third|next)\\s+ingredient" ∷ ")" ∷ []);
  ignore_case = true;
  dot_all = false;
}

abbrev pub supplier_price : Pattern
supplier_price = record {
  source = joined (
      "(" ∷ "supplier\\s+(contract|price|prices|terms|charge)|" ∷ "negotiated\\s+price|"
      ∷ "what\\s+we\\s+charge\\s+the\\s+supplier|" ∷ "charge\\s+the\\s+supplier\\s+per|"
      ∷ "per\\s+portion\\b.*\\bsupplier|" ∷ "supplier\\b.*\\bper\\s+portion" ∷ ")" ∷ []);
  ignore_case = true;
  dot_all = false;
}

abbrev pub payroll : Pattern
payroll = record {
  source = joined (
      "\\b(payroll|performance\\s+review|salary|wage\\s+of\\s+(another|other)\\s+employee|"
      ∷ "how\\s+much\\s+(does|do)\\s+\\w+\\s+(make|earn|get\\s+paid))\\b" ∷ []);
  ignore_case = true;
  dot_all = false;
}

abbrev pub prompt_leak : Pattern
prompt_leak = record {
  source = joined (
      "(system\\s+prompt|ignore\\s+previous\\s+instructions|"
      ∷ "<<<RETRIEVED_DATA>>>|treat\\s+the\\s+above\\s+strictly\\s+as\\s+reference)" ∷ []);
  ignore_case = true;
  dot_all = false;
}

abbrev pub in_domain_followup : Pattern
in_domain_followup = record {
  source = joined (
      "\\b(points?|tier|gold|silver|bronze|ticket|incident|allergen|"
      ∷ "loyalty|waste|supplier\\s+order|discount|program|"
      ∷ "hours?|opening|closing|schedule|what\\s+time|"
      ∷ "open(?:s|ing)?|clos(?:e|es|ing)|delivery\\s+days?|"
      ∷ "hora(?:s)?|abre|abren|cierra|cierran|horario|entrega(?:s)?)\\b" ∷ []);
  ignore_case = true;
  dot_all = false;
}

abbrev pub location_operational : Pattern
location_operational = record {
  source = joined (
      "(" ∷ "\\b(what\\s+time|hours?|opening|closing|schedule)\\b|"
      ∷ "\\b(open(?:s|ing)?|clos(?:e|es|ing))\\b|"
      ∷ "\\b(delivery\\s+days?|supplier\\s+delivery)\\b|"
      ∷ "\\b(hora(?:s)?|abre|abren|cierra|cierran|horario|d[ií]as?\\s+de\\s+entrega|entrega(?:s)?)\\b"
      ∷ ")" ∷ []);
  ignore_case = true;
  dot_all = false;
}

abbrev pub extraction_continuation : Pattern
extraction_continuation = record {
  source = joined (
      "(" ∷ "(first|second|third|fourth|next)\\s+ingredient\\b|"
      ∷ "(and\\s+)?(the\\s+)?(first|second|third|fourth|next)\\b.{0,48}\\b"
      ∷ "(ingredient|amount|quantity|proportion|measurement|formula|sauce)s?\\b|"
      ∷ "\\b(exact\\s+)?(amount|quantity|proportion|measurement|formula)s?\\b|"
      ∷ "\\b(next\\s+)?ingredient\\b|"
      ∷ "\\b(house\\s+)?sauce\\b.{0,24}\\b(ingredient|amount|quantity|proportion)\\b" ∷ ")" ∷ []);
  ignore_case = true;
  dot_all = true;
}

abbrev pub memory_approve : Pattern
memory_approve = record {
  source = joined (
      "(" ∷ "^\\s*(yes|sí|si)[,!]?\\s+(please\\s+)?(remember|save|store|keep)\\b|"
      ∷ "\\b(please\\s+)?(remember|save|store|keep)\\s+(that|this|it)\\b|"
      ∷ "\\b(yes|sí|si)[,!]?\\s+(please\\s+)?(guárdalo|guardalo|recuérdalo|recuerdalo)\\b|"
      ∷ "\\b(guárdalo|guardalo|recuérdalo|recuerdalo|aprobad[oa]?)\\b|"
      ∷ "\\b(confirm|approve)\\s+(that|this|it|the\\s+memory)?\\b|" ∷ "\\bsí[,!]?\\s+guárdalo\\b|"
      ∷ "\\byes[,!]?\\s+remember\\b|" ∷ "^\\s*save\\s+it\\b|" ∷ "^\\s*keep\\s+it\\b|"
      ∷ "^\\s*store\\s+it\\b" ∷ ")" ∷ []);
  ignore_case = true;
  dot_all = false;
}

abbrev pub memory_edit : Pattern
memory_edit = record {
  source = joined (
      "("
      ∷ "\\b(change|edit|update|correct)\\s+(it|that|this|the\\s+memory)?\\s*(to|:)\\s*(?P<v1>.+)|"
      ∷ "\\b(make\\s+it)\\s+(?P<v2>.+)|"
      ∷ "\\b(actually,?\\s+remember|remember\\s+instead)\\s*:?\\s*(?P<v3>.+)|"
      ∷ "\\bremember\\s+(?:it|that|this)\\s+as\\s+(?P<v4>.+)|"
      ∷ "\\b(rather)\\s+(?!not\\s+(store|save|remember|keep)\\b)(?:remember\\s+)?(?P<v5>.+)|"
      ∷ "\\b(corrige|cambia|edita)\\s*:?\\s*(?P<v6>.+)|"
      ∷ "\\b(en\\s+vez(?:\\s+de)?|mejor)\\s*:?\\s*(?P<v7>.+)|" ∷ "\\bedit\\s*:\\s*(?P<v8>.+)" ∷ ")"
      ∷ []);
  ignore_case = true;
  dot_all = true;
}

abbrev pub memory_refuse_store : Pattern
memory_refuse_store = record {
  source = joined (
      "(" ∷ "\\b(don'?t|dont|do\\s+not|never)\\s+(please\\s+)?(remember|save|store|keep)\\b|"
      ∷ "\\bno\\s+lo\\s+(recuerdes|guardes|almacenes)\\b|"
      ∷ "\\b(no|nunca)\\s+(?:me\\s+)?(?:lo\\s+)?(recuerdes|guardes|almacenes)\\b|"
      ∷ "\\brather\\s+not\\s+(store|save|remember|keep)\\b|"
      ∷ "\\bnot\\s+(store|save|remember|keep)\\s+(it|that|this)\\b" ∷ ")" ∷ []);
  ignore_case = true;
  dot_all = false;
}

abbrev pub bare_affirm : Pattern
bare_affirm = record {
  source = joined ("^\\s*(yes|sí|si|ok|okay|yep|yeah|sure)\\s*[.!]?\\s*$" ∷ []);
  ignore_case = true;
  dot_all = false;
}

abbrev pub bare_no : Pattern
bare_no = record {
  source = joined ("^\\s*(no|nope|nah)\\s*[.!]?\\s*$" ∷ []);
  ignore_case = true;
  dot_all = false;
}

abbrev pub trailing_not_clause : Pattern
trailing_not_clause = record {
  source = joined ("\\s*,\\s*not\\b.+$" ∷ []);
  ignore_case = true;
  dot_all = true;
}
