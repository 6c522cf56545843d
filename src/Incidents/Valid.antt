-- ===== src/Incidents/Valid.antt =====
-- What is stored by services/incident-manager passes the validation of packages/shared.
use brasaland_digital.Base.{
  ℕ, ◌≡◌, refl, sym, subst, inl, inr, true, List, [], ◌∷◌, String, All, All-append,
  All-update_where, strip,
}
use brasaland_digital.Base.Sql.{has_key}
use brasaland_digital.Shared.{stripped_value, value_of, validate_transition}
use brasaland_digital.Shared.Fields.{IsComplete, validate_incident_fields_iff}
use brasaland_digital.Shared.Transitions.{IsStep, validate_transition_iff}
use brasaland_digital.Incidents.Store.{IncidentRecord, id_of, source_of, Env, set_status}
use brasaland_digital.Incidents.Service.{payload_of, Call, run}
use brasaland_digital.Incidents.Writes.{IsValid, run_keeps}

abbrev Columns : IncidentRecord → String → Type 0
Columns r status = IsComplete (payload_of r.title r.description r.category status r.origin r.branch)

-- The targets of the allowed changes are statuses.
complete_step :
    (r : IncidentRecord) (current target : String)
    → IsStep current target
    → Columns r r.status
    → Columns r target
unfolding stripped_value value_of strip
complete_step r current target (inl (_, e)) (g, c, s, o, b) =
    subst (Columns r) (sym e) ((g.0, (g.1.0, (g.1.1.0, (refl, g.1.1.1.1)))), c, refl, o, b)
complete_step r current target (inr (inl (_, e))) (g, c, s, o, b) =
    subst (Columns r) (sym e) ((g.0, (g.1.0, (g.1.1.0, (refl, g.1.1.1.1)))), c, refl, o, b)
complete_step r current target (inr (inr (inl (_, e)))) (g, c, s, o, b) =
    subst (Columns r) (sym e) ((g.0, (g.1.0, (g.1.1.0, (refl, g.1.1.1.1)))), c, refl, o, b)
complete_step r current target (inr (inr (inr (_, e)))) (g, c, s, o, b) =
    subst (Columns r) (sym e) ((g.0, (g.1.0, (g.1.1.0, (refl, g.1.1.1.1)))), c, refl, o, b)

set_status-IsValid :
    (r : IncidentRecord) (current target : String) (time : ℕ)
    → (validate_transition current target).is_allowed ≡ true
    → IsValid r
    → IsValid (set_status target time r)
set_status-IsValid r current target time allowed v = (validate_incident_fields_iff _).1 (
    complete_step r current target ((validate_transition_iff current target).0 allowed)
      ((validate_incident_fields_iff _).0 v))

-- All rows pass the validation.
abbrev pub IsSound : (env : Env) → env.incidents.Tab → Type 0
IsSound env t = All IsValid (env.incidents.rows t)

-- In every database that calls of the service reach from one whose incidents are valid, whether the
-- calls return or raise, every incident passes the validation of its fields.
pub run-IsSound :
    (env : Env) (calls : List (ℕ × Call)) (t : env.incidents.Tab)
    → IsSound env t
    → IsSound env (run env calls t)
run-IsSound env =
    run_keeps env (IsSound env)
      (λ t r sound _ valid.
        subst (All IsValid) (sym (env.incidents.rows-insert r t))
          (All-append IsValid (env.incidents.rows t) (r ∷ []) sound (valid, tt)))
      (λ t k r target time sound _ allowed.
        subst (All IsValid) (sym (env.incidents.rows-update (set_status target time) k t)) (
          All-update_where IsValid (set_status target time) (has_key id_of source_of k)
            (env.incidents.rows t) (λ x. set_status-IsValid x r.status target time allowed) sound))
