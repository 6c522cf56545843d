-- ===== src/Incidents/Store.antt =====
-- services/incident-manager/incident_manager/repository.py, with the records of types.py and models.py.
-- A datetime is a number of microseconds; a stored one is read back as it was written.
use Prim.Native.Char.{code}
use brasaland_digital.Base.{
  ℕ, Bool, true, not, ◌&&◌, Option, some, none, List, String, ◌==◌, eqb, is_blank, decimal, concat,
  select, length, if◌then◌else◌, Result, ok, err,
}
use brasaland_digital.Base.Monad.{Action, ◌>>=◌, lift}
use brasaland_digital.Base.Sql.{SqlTable}

pub record IncidentRecord : Type 0 where
  pub id : ℕ
  pub source_incident_id : String
  pub title : String
  pub description : String
  pub category : String
  pub status : String
  pub origin : String
  pub branch : String
  pub created_at : ℕ
  pub updated_at : ℕ

abbrev pub id_of : IncidentRecord → ℕ
id_of r = r.id

abbrev pub source_of : IncidentRecord → String
source_of r = r.source_incident_id

-- The database, and the standard library's `datetime`: `none` is the `ValueError` of a malformed text.
pub record Env : Type 1 where
  pub incidents : SqlTable id_of source_of
  pub fromisoformat : String → Option ℕ
  pub isoformat : ℕ → String

pub data Error : Type 0 where
  value_error : Error
  integrity_error : Error

abbrev pub Incidents : Env → Type 0 → Type 0
Incidents env A = Action Error env.incidents.Tab A

-- The dict that `insert` takes.
pub record NewIncident : Type 0 where
  pub source_incident_id : Option String
  pub title : String
  pub description : String
  pub category : String
  pub status : String
  pub origin : String
  pub branch : String
  pub created_at : String
  pub updated_at : String

-- `value[:-1] + "+00:00" if value.endswith("Z") else value`
unfoldable pub with_offset : String → String
with_offset String.[] = ""
with_offset (String.◌∷◌ c s) =
    let rest = with_offset s in
    if is_blank s && eqb (code c) 90 then "+00:00" else String.◌∷◌ c rest

abbrev or_value_error : Option ℕ → Result Error ℕ
or_value_error none = err value_error
or_value_error (some n) = ok n

unfoldable pub parse_timestamp : Env → String → Result Error ℕ
parse_timestamp env value = or_value_error (env.fromisoformat (with_offset value))

unfoldable pub new_row : NewIncident → ℕ → String → ℕ → ℕ → IncidentRecord
new_row incident key source created_at updated_at = record {
  id = key;
  source_incident_id = source;
  title = incident.title;
  description = incident.description;
  category = incident.category;
  status = incident.status;
  origin = incident.origin;
  branch = incident.branch;
  created_at = created_at;
  updated_at = updated_at;
}

-- `provided_source or "__pending__"`, the text with which the row is flushed.
unfoldable pub flushed_source : Option String → String
flushed_source none = "__pending__"
flushed_source (some source) = if is_blank source then "__pending__" else source

-- The text with which the row is committed.
unfoldable pub committed_source : ℕ → Option String → String
committed_source key none = concat "MANUAL-" (decimal key)
committed_source key (some source) =
    if is_blank source then concat "MANUAL-" (decimal key) else source

-- `if status is not None: statement = statement.where(...)`
abbrev pub matches : Option String → String → Bool
matches none value = true
matches (some wanted) value = value == wanted

-- The change that `update_status_fields` makes to a row.
abbrev pub set_status : String → ℕ → IncidentRecord → IncidentRecord
set_status status time r = record r { status = status; updated_at = time }

module _ (env : Env) where
  -- A text that another row has ends the transaction, and nothing of it is kept.
  unfoldable pub commit_row : String → IncidentRecord → Incidents env IncidentRecord
  commit_row flushed row t =
      if not (env.incidents.accepts flushed t && env.incidents.accepts row.source_incident_id t)
      then (err integrity_error, t)
      else (ok row, env.incidents.insert row t)

  unfoldable pub insert : NewIncident → Incidents env IncidentRecord
  unfolding commit_row
  insert incident t =
      (do
        created_at ← lift (parse_timestamp env incident.created_at)
        updated_at ← lift (parse_timestamp env incident.updated_at)
        let key = env.incidents.next_key t
        commit_row (flushed_source incident.source_incident_id) (
            new_row incident key (committed_source key incident.source_incident_id) created_at
              updated_at))
        t

  unfoldable pub find_by_source_incident_id : String → Incidents env (Option IncidentRecord)
  find_by_source_incident_id source t = (ok (env.incidents.first source t), t)

  unfoldable pub get : ℕ → Incidents env (Option IncidentRecord)
  get incident_id t = (ok (env.incidents.get incident_id t), t)

  unfoldable pub count_all : Incidents env ℕ
  count_all t = (ok (length (env.incidents.rows t)), t)

  unfoldable pub list_with_filters :
      Option String
      → Option String
      → Option String
      → Option String
      → Incidents env (List IncidentRecord)
  list_with_filters status origin branch category t = (
    ok (
        select
          (λ r.
            matches status r.status
            && matches origin r.origin
            && matches branch r.branch
            && matches category r.category)
          (env.incidents.rows t)),
    t,
  )

  unfoldable pub update_status_fields : ℕ → String → String → Incidents env (Option IncidentRecord)
  update_status_fields incident_id status updated_at t = elim (env.incidents.get incident_id t) [
    | none ↦ (ok none, t)
    | some row ↦ elim (parse_timestamp env updated_at) [
      | err e ↦ (err e, t)
      | ok time ↦
          let t' = env.incidents.update (set_status status time) incident_id t in
          (ok (env.incidents.get incident_id t'), t')
    ]
  ]
