-- ===== src/Agent/Memory/Screen.antt =====
-- data/pipelines/memory_store.py: what must never be stored, and the redaction of the log.
use brasaland_digital.Base.{
  Bool, true, false, not, ◌&&◌, ◌||◌, Option, some, none, is_some, List, [], ◌∷◌, String, is_blank,
  strip, contains, if◌then◌else◌,
}
use brasaland_digital.Base.Regex.{Match}
use brasaland_digital.Agent.Env.{Env}
use brasaland_digital.Agent.Memory.Patterns.{
  email, phone, tokenish, payroll, pii_name_email, proprietary, status_claim,
}

abbrev pub memory_categories : List String
memory_categories = "hours" ∷ "suppliers" ∷ "known_incidents" ∷ "comms_prefs" ∷ []

abbrev pub allowed_incident_status : List String
allowed_incident_status = "open" ∷ "in_progress" ∷ "resolved" ∷ "discarded" ∷ []

-- `text or default`
abbrev pub or_else : String → String → String
or_else text default_text = if is_blank text then default_text else text

-- `text or default` where the text may be missing.
abbrev pub or_text : Option String → String → String
or_text none default_text = default_text
or_text (some text) default_text = or_else text default_text

-- `m.group(1)`: the first group of each pattern it is read from always takes part.
abbrev pub group_1 : Match → String
group_1 m = elim m.groups [ [] ↦ "" | g ∷ rest ↦ or_text g "" ]

module _ (env : Env) where
  unfoldable pub scrub_for_audit : String → String
  scrub_for_audit text =
      if is_blank text
      then ""
      else let no_email = env.re.sub email "[REDACTED_EMAIL]" text in
        let no_secret = env.re.sub tokenish "[REDACTED_SECRET]" no_email in
        let no_phone = env.re.sub phone "[REDACTED_PHONE]" no_secret in
        let no_payroll = env.re.sub payroll "[REDACTED_PAYROLL]" no_phone in
        env.re.sub pii_name_email "[REDACTED_PII]" no_payroll

  -- Whether a claim on a status names one that incidents do not have.
  unfoldable pub has_unknown_status : List Match → Bool
  has_unknown_status [] = false
  has_unknown_status (m ∷ rest) =
      let later = has_unknown_status rest in
      if not (contains (env.lower (group_1 m)) allowed_incident_status) then true else later

  unfoldable pub contains_never_store : String → Option String
  unfolding has_unknown_status
  contains_never_store text =
      if is_blank text || is_blank (strip text)
      then some "empty_summary"
      else if is_some (env.re.search email text)
          || is_some (env.re.search phone text)
          || is_some (env.re.search pii_name_email text)
      then some "customer_pii"
      else if is_some (env.re.search payroll text)
      then some "payroll"
      else if is_some (env.re.search tokenish text)
      then some "secrets"
      else if is_some (env.re.search proprietary text)
      then some "proprietary_claim"
      else if has_unknown_status (env.re.find_all status_claim text)
      then some "allowed_value_contradiction"
      else none

  unfoldable pub validate_memory_payload : String → Option String → Option String
  unfolding contains_never_store
  validate_memory_payload summary category = elim (contains_never_store summary) [
    | some reason ↦ some reason
    | none ↦
        let cat = env.lower (strip (or_text category "")) in
        if not (is_blank cat) && not (contains cat memory_categories)
        then some "invalid_category"
        else none
  ]
