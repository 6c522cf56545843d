-- ===== src/Incidents/Service.antt =====
-- services/incident-manager/incident_manager/service.py. The time of a call is an argument.
use brasaland_digital.Base.{
  ℕ, suc, not, Option, some, none, List, [], ◌∷◌, ◌++◌, map, String, ◌==◌, contains, concat,
  is_blank, length, if◌then◌else◌,
}
use brasaland_digital.Base.Monad.{◌>>=◌, pure}
use brasaland_digital.Shared.{
  FieldError, Payload, valid_branches, valid_categories, valid_origins, valid_statuses,
  validate_incident_fields, validate_transition,
}
use brasaland_digital.Incidents.Store.{
  IncidentRecord, Env, Incidents, NewIncident, insert, find_by_source_incident_id, get, count_all,
  list_with_filters, update_status_fields,
}

-- A row of a batch, with the keys of the dict `IncidentSeedInput`.
pub record IncidentSeedInput : Type 0 where
  pub source_incident_id : String
  pub title : String
  pub description : String
  pub category : String
  pub status : String
  pub origin : String
  pub branch : String
  pub created_at : String
  pub updated_at : String

pub record RejectedSeedRow : Type 0 where
  pub source_incident_id : String
  pub reasons : List String

pub record SeedReport : Type 0 where
  pub inserted : ℕ
  pub skipped_duplicate : ℕ
  pub rejected : List RejectedSeedRow

-- The dict with the six texts that are validated.
abbrev pub payload_of : String → String → String → String → String → String → Payload
payload_of title description category status origin branch =
    ("title", some title)
    ∷ ("description", some description)
    ∷ ("category", some category)
    ∷ ("status", some status)
    ∷ ("origin", some origin)
    ∷ ("branch", some branch)
    ∷ []

unfoldable pub validation_payload : IncidentSeedInput → Payload
validation_payload row =
    payload_of row.title row.description row.category row.status row.origin row.branch

abbrev pub reason : FieldError → String
reason e = concat e.field (concat ": " e.message)

abbrev pub seed_dict : IncidentSeedInput → NewIncident
seed_dict row = record {
  source_incident_id = some row.source_incident_id;
  title = row.title;
  description = row.description;
  category = row.category;
  status = row.status;
  origin = row.origin;
  branch = row.branch;
  created_at = row.created_at;
  updated_at = row.updated_at;
}

abbrev pub empty_report : SeedReport
empty_report = record { inserted = 0; skipped_duplicate = 0; rejected = [] }

module _ (env : Env) where
  unfoldable pub insert_or_skip :
      IncidentSeedInput → SeedReport → Option IncidentRecord → Incidents env SeedReport
  insert_or_skip row report (some found) =
      pure (record report { skipped_duplicate = suc report.skipped_duplicate })
  insert_or_skip row report none =
      insert env (seed_dict row) >>= λ r. pure (record report { inserted = suc report.inserted })

  -- One round of the loop of `seed_batch`.
  unfoldable pub seed_checked :
      IncidentSeedInput → SeedReport → List FieldError → Incidents env SeedReport
  unfolding insert_or_skip
  seed_checked row report (e ∷ es) = pure (record report {
    rejected =
        report.rejected
        ++ record { source_incident_id = row.source_incident_id; reasons = map reason (e ∷ es) }
          ∷ [];
  })
  seed_checked row report [] =
      find_by_source_incident_id env row.source_incident_id >>= insert_or_skip row report

  unfoldable pub seed_rows : List IncidentSeedInput → SeedReport → Incidents env SeedReport
  unfolding seed_checked
  seed_rows [] report = pure report
  seed_rows (row ∷ rows) report =
      seed_checked row report (validate_incident_fields (validation_payload row)) >>= seed_rows rows

  unfoldable pub seed_batch : List IncidentSeedInput → Incidents env SeedReport
  seed_batch rows = seed_rows rows empty_report

  unfoldable pub incident_count : Incidents env ℕ
  incident_count = count_all env

-- The dict `IncidentCreateInput`; `none` is a key that is not there, or the status `None`.
pub record IncidentCreateInput : Type 0 where
  pub title : Option String
  pub description : Option String
  pub category : Option String
  pub status : Option String
  pub origin : Option String
  pub branch : Option String

abbrev pub or_empty : Option String → String
or_empty none = ""
or_empty (some s) = s

-- `data.get("status") or "open"`
unfoldable pub initial_status : Option String → String
initial_status none = "open"
initial_status (some s) = if is_blank s then "open" else s

unfoldable pub create_payload : IncidentCreateInput → Payload
create_payload input =
    payload_of (or_empty input.title) (or_empty input.description) (or_empty input.category)
      (initial_status input.status) (or_empty input.origin) (or_empty input.branch)

unfoldable pub create_dict : IncidentCreateInput → String → NewIncident
create_dict input timestamp = record {
  source_incident_id = none;
  title = or_empty input.title;
  description = or_empty input.description;
  category = or_empty input.category;
  status = initial_status input.status;
  origin = or_empty input.origin;
  branch = or_empty input.branch;
  created_at = timestamp;
  updated_at = timestamp;
}

-- A dict from texts to counts, in the order in which its keys were added.
abbrev pub Counts : Type 0
Counts = List (String × ℕ)

-- `counts[key] = counts.get(key, 0) + 1`
unfoldable pub count_one : String → Counts → Counts
count_one key [] = (key, 1) ∷ []
count_one key ((k, n) ∷ rest) =
    let later = count_one key rest in if k == key then (k, suc n) ∷ rest else (k, n) ∷ later

pub record IncidentSummary : Type 0 where
  pub total : ℕ
  pub by_status : Counts
  pub by_category : Counts
  pub by_origin : Counts
  pub by_branch : Counts

abbrev pub empty_summary : IncidentSummary
empty_summary = record {
  total = 0;
  by_status = [];
  by_category = [];
  by_origin = [];
  by_branch = [];
}

-- The loop of `build_summary` for one of the four dicts.
unfoldable pub tally : (IncidentRecord → String) → Counts → List IncidentRecord → Counts
unfolding count_one
tally column counts [] = counts
tally column counts (r ∷ rs) = tally column (count_one (column r) counts) rs

unfoldable pub summary_of : List IncidentRecord → IncidentSummary
summary_of [] = empty_summary
summary_of (r ∷ rs) = record {
  total = length (r ∷ rs);
  by_status = tally (λ x. x.status) [] (r ∷ rs);
  by_category = tally (λ x. x.category) [] (r ∷ rs);
  by_origin = tally (λ x. x.origin) [] (r ∷ rs);
  by_branch = tally (λ x. x.branch) [] (r ∷ rs);
}

unfoldable pub filter_errors : String → List String → Option String → List FieldError
filter_errors name allowed none = []
filter_errors name allowed (some value) =
    if contains value allowed
    then []
    else record { field = name; message = concat name " must be one of the allowed values" } ∷ []

unfoldable pub validate_list_filters :
    Option String → Option String → Option String → Option String → List FieldError
unfolding filter_errors
validate_list_filters status origin branch category =
    filter_errors "status" valid_statuses status
    ++ filter_errors "origin" valid_origins origin
    ++ filter_errors "branch" valid_branches branch
    ++ filter_errors "category" valid_categories category

module _ (env : Env) where
  unfoldable pub create_checked :
      ℕ
      → IncidentCreateInput
      → List FieldError
      → Incidents env (Option IncidentRecord × List FieldError)
  create_checked now input (e ∷ es) = pure (none, e ∷ es)
  create_checked now input [] =
      insert env (create_dict input (env.isoformat now)) >>= λ r. pure (some r, [])

  unfoldable pub create_incident :
      ℕ → IncidentCreateInput → Incidents env (Option IncidentRecord × List FieldError)
  create_incident now input =
      create_checked now input (validate_incident_fields (create_payload input))

  unfoldable pub list_incidents :
      Option String
      → Option String
      → Option String
      → Option String
      → Incidents env (List IncidentRecord)
  list_incidents = list_with_filters env

  unfoldable pub get_incident : ℕ → Incidents env (Option IncidentRecord)
  get_incident = get env

  unfoldable pub build_summary : Incidents env IncidentSummary
  build_summary = list_with_filters env none none none none >>= λ rs. pure (summary_of rs)

  -- The incident after the change, with the message of a change that is refused.
  unfoldable pub change_status :
      ℕ → ℕ → String → Option IncidentRecord → Incidents env (Option IncidentRecord × Option String)
  change_status now incident_id target none = pure (none, none)
  change_status now incident_id target (some r) =
      let transition = validate_transition r.status target in
      if not transition.is_allowed
      then pure (some r, transition.message)
      else update_status_fields env incident_id target (env.isoformat now) >>= λ updated.
          pure (updated, none)

  unfoldable pub update_incident_status :
      ℕ → ℕ → String → Incidents env (Option IncidentRecord × Option String)
  unfolding change_status
  update_incident_status now incident_id target =
      get env incident_id >>= change_status now incident_id target

-- The calls that write, in any order.
pub data Call : Type 0 where
  creates : IncidentCreateInput → Call
  seeds : List IncidentSeedInput → Call
  changes : ℕ → String → Call

module _ (env : Env) where
  unfoldable pub serve : ℕ → Call → env.incidents.Tab → env.incidents.Tab
  serve now (creates input) t = (create_incident env now input t).1
  serve now (seeds rows) t = (seed_batch env rows t).1
  serve now (changes incident_id target) t = (update_incident_status env now incident_id target t).1

  unfoldable pub run : List (ℕ × Call) → env.incidents.Tab → env.incidents.Tab
  run [] t = t
  run ((now, c) ∷ calls) t = run calls (serve now c t)
