-- ===== src/Incidents/Tests.antt =====
-- The theorems on services/incident-manager and packages/shared at concrete inputs. A timestamp is
-- written as its number.
use brasaland_digital.Base.{
  ℕ, ◌≡◌, refl, ◌↔◌, true, List, [], ◌∷◌, ◌+◌, none, find, select, length, decimal, int_of, ok, err,
}
use brasaland_digital.Base.Sql.{list_sql, has_key}
use brasaland_digital.Shared.{
  validate_incident_fields, validate_transition, stripped_value, required_errors, choice_errors,
}
use brasaland_digital.Base.{strip}
use brasaland_digital.Shared.Fields.{IsComplete, validate_incident_fields_iff}
use brasaland_digital.Shared.Transitions.{IsStep, validate_transition_iff}
use brasaland_digital.Incidents.Store.{
  IncidentRecord, id_of, source_of, Env, find_by_source_incident_id, insert, parse_timestamp,
  with_offset, flushed_source, new_row, committed_source,
}
use brasaland_digital.Incidents.Service.{
  IncidentCreateInput, create_checked, create_payload, create_dict, create_incident, initial_status,
  IncidentSeedInput, SeedReport, IncidentSummary, payload_of, seed_batch, seed_rows,
  validation_payload, build_summary, Call, changes, seeds, run,
}
use brasaland_digital.Incidents.Valid.{IsSound, run-IsSound}
use brasaland_digital.Incidents.Statuses.{IsFollowed, run-IsFollowed}
use brasaland_digital.Incidents.Seeding.{seed_batch-again}
use brasaland_digital.Incidents.Report.{rejections, is_valid_row, seed_batch-accounts}
use brasaland_digital.Incidents.Summary.{IsTally, build_summary_lem}
use brasaland_digital.Incidents.Stuck.{unknown_status_stuck}
use brasaland_digital.Base.{some}

abbrev demo : Env
demo = record { incidents = list_sql id_of source_of; fromisoformat = int_of; isoformat = decimal }

abbrev cold_food : IncidentRecord
cold_food = record {
  id = 1;
  source_incident_id = "INC-1";
  title = "Cold food";
  description = "The meat was cold";
  category = "CALIDAD_ALIMENTO";
  status = "open";
  origin = "customer";
  branch = "COL-01";
  created_at = 5;
  updated_at = 5;
}

abbrev broken_oven : IncidentSeedInput
broken_oven = record {
  source_incident_id = "INC-2";
  title = "Oven";
  description = "The oven is broken";
  category = "EQUIPAMIENTO";
  status = "in_progress";
  origin = "branch";
  branch = "FLA-02";
  created_at = "7";
  updated_at = "7";
}

abbrev unknown_branch : IncidentSeedInput
unknown_branch = record broken_oven { source_incident_id = "INC-3"; branch = "FLA-09" }

abbrev batch : List IncidentSeedInput
batch = broken_oven ∷ unknown_branch ∷ broken_oven ∷ []

abbrev calls : List (ℕ × Call)
calls =
    (8, changes 1 "in_progress")
    ∷ (9, seeds batch)
    ∷ (10, changes 1 "resolved")
    ∷ (11, changes 1 "open")
    ∷ []

abbrev report : SeedReport
report = elim (seed_batch demo batch (cold_food ∷ [])).0 [
  | ok r ↦ r
  | err e ↦ record { inserted = 0; skipped_duplicate = 0; rejected = [] }
]

validate_transition_iff_example :
    ((validate_transition "open" "resolved").is_allowed ≡ true) ↔ IsStep "open" "resolved"
validate_transition_iff_example = validate_transition_iff "open" "resolved"

validate_incident_fields_iff_example :
    (validate_incident_fields
        (payload_of "Oven" "It is broken" " EQUIPAMIENTO" "open" "branch" "FLA-02")
      ≡ [])
    ↔ IsComplete (payload_of "Oven" "It is broken" " EQUIPAMIENTO" "open" "branch" "FLA-02")
validate_incident_fields_iff_example =
    validate_incident_fields_iff
      (payload_of "Oven" "It is broken" " EQUIPAMIENTO" "open" "branch" "FLA-02")

cold_food_valid : IsSound demo (cold_food ∷ [])
unfolding validate_incident_fields required_errors stripped_value strip choice_errors
cold_food_valid = (refl, tt)

run-IsSound_example : IsSound demo (run demo calls (cold_food ∷ []))
run-IsSound_example = run-IsSound demo calls (cold_food ∷ []) cold_food_valid

run-IsFollowed_example : IsFollowed demo 1 cold_food (run demo calls (cold_food ∷ []))
run-IsFollowed_example = run-IsFollowed demo calls (cold_food ∷ []) 1 cold_food refl

batch_seeded : (seed_batch demo batch (cold_food ∷ [])).0 ≡ ok report
unfolding seed_batch seed_rows validate_incident_fields required_errors stripped_value strip
    validation_payload choice_errors find_by_source_incident_id insert parse_timestamp int_of
    with_offset flushed_source new_row committed_source
batch_seeded = refl

seed_batch-accounts_example :
    ((added : List IncidentRecord) × (demo.incidents.rows (seed_batch demo batch (cold_food ∷ [])).1
        ≡ cold_food ∷ added)
      × (report.inserted ≡ length added))
    × (report.rejected ≡ rejections batch)
    × (report.inserted + report.skipped_duplicate ≡ length (select is_valid_row batch))
seed_batch-accounts_example = seed_batch-accounts demo batch report (cold_food ∷ []) batch_seeded

seed_batch-again_example :
    let later = run demo calls (seed_batch demo batch (cold_food ∷ [])).1 in
    (out : SeedReport) × (seed_batch demo batch later ≡ (ok out, later)) × (out.inserted ≡ 0)
seed_batch-again_example =
    seed_batch-again demo batch report (cold_food ∷ []) (refl, (refl, (refl, tt))) batch_seeded
      calls

build_summary_lem_example :
    (s : IncidentSummary) × (build_summary demo (cold_food ∷ []) ≡ (ok s, cold_food ∷ []))
    × (s.total ≡ length (cold_food ∷ []))
    × IsTally (λ r. r.status) s.by_status (cold_food ∷ [])
    × IsTally (λ r. r.category) s.by_category (cold_food ∷ [])
    × IsTally (λ r. r.origin) s.by_origin (cold_food ∷ [])
    × IsTally (λ r. r.branch) s.by_branch (cold_food ∷ [])
build_summary_lem_example = build_summary_lem demo (cold_food ∷ [])

-- An incident whose status is typed with blanks around it.
abbrev typed : IncidentCreateInput
typed = record {
  title = some "No ice";
  description = some "The machine is off";
  category = some "EQUIPAMIENTO";
  status = some " open ";
  origin = some "branch";
  branch = some "FLA-02";
}

abbrev typed_record : IncidentRecord
typed_record = elim (create_incident demo 7 typed (cold_food ∷ [])).0 [
  | ok (some r, errors) ↦ r
  | ok (none, errors) ↦ cold_food
  | err e ↦ cold_food
]

typed_created : (create_incident demo 7 typed (cold_food ∷ [])).0 ≡ ok (some typed_record, [])
unfolding create_incident validate_incident_fields required_errors stripped_value strip
    create_payload create_dict create_checked initial_status choice_errors insert parse_timestamp
    int_of with_offset flushed_source new_row committed_source decimal
typed_created = refl

unknown_status_stuck_example :
    (s : IncidentRecord) × (find (has_key id_of source_of typed_record.id) (
        demo.incidents.rows (
          run demo
            ((9, changes typed_record.id "discarded") ∷ [])
            (create_incident demo 7 typed (cold_food ∷ [])).1))
      ≡ some s)
    × (s.status ≡ initial_status (some " open "))
unfolding initial_status
unknown_status_stuck_example =
    unknown_status_stuck demo 7 typed typed_record (cold_food ∷ []) typed_created refl
      ((9, changes typed_record.id "discarded") ∷ [])
