-- ===== src/Cases/Open.antt =====
-- backend/app/api/routers/evaluations.py: `create_evaluation`. The request holds no record yet, so
-- its state is the tables alone.
pub mod Unique
use nafas_hr.Prelude.{
  ℕ, ◌+◌, ◌==◌, Bool, true, false, ◌&&◌, ◌||◌, not, Option, none, some, List, [], ◌∷◌, any, first,
  is_none, is_just, if◌then◌else◌,
}
use nafas_hr.Model.Enums.{
  UserRole, unit_supervisor, deputy, ceo, draft, status_value, is_active_personnel,
}
use nafas_hr.Model.Values.{
  Env, text, http, not_found, forbidden, inactive_personnel, no_access_row, inactive_seats,
  no_supervisor, open_case_exists, Result, ok, err,
}
use nafas_hr.Model.Evaluation.{Evaluation}
use nafas_hr.Model.Tables.{
  CurrentUser, Personnel, EvaluationAccess, EvaluationPeriod, ScoringScheme, IndicatorFramework,
  ContractSelfAssessment,
}
use nafas_hr.Model.Store.{Db}
use nafas_hr.Web.{Exec, raise, raise_if, or_raise, modify, gets, pure, ◌>>=◌, ◌>>◌}
use nafas_hr.Audit.{log_event}
use nafas_hr.Guards.{inactive_seat_labels}
use nafas_hr.Window.{open_period}
use nafas_hr.Scheme.{active_scheme}
use nafas_hr.Framework.{ensure_framework, framework_by_id}
use nafas_hr.Workflow.Table.{is_open}
use nafas_hr.Workflow.Roles.{may_act_at}
use nafas_hr.Cases.Chain.{require_chain_stage}
use nafas_hr.Cases.Snapshot.{personnel_by_id}

unfoldable pub access_of : ℕ → Db → Option EvaluationAccess
access_of personnel_id db = first (λ a. a.personnel_id == personnel_id) db.accesses

-- `existing_open` is not None.
unfoldable pub has_open_record : ℕ → Db → Bool
has_open_record personnel_id db =
    any (λ r. r.subject_personnel_id == personnel_id && is_open r.status) db.evaluations

-- `assessment_for_contract` of backend/app/services/self_assessment.py.
unfoldable pub assessment_for_contract : Db → ℕ → ℕ → Option ContractSelfAssessment
assessment_for_contract db personnel_id start =
    first (λ a. a.personnel_id == personnel_id && a.contract_start_date == start) db.assessments

-- The user acts at the stage and sits on its seat.
unfoldable pub starts_at : UserRole → Option ℕ → CurrentUser → Bool
starts_at stage assignee user = may_act_at user.role stage && is_just user.id assignee

-- The supervisor's seat of the new record, by the path that the access row and the person give.
unfoldable pub opening_seat : Personnel → EvaluationAccess → CurrentUser → Exec Db (Option ℕ)
opening_seat p access user db =
    if is_none access.unit_supervisor_user_id && is_none access.deputy_user_id
    then (if starts_at ceo (some access.ceo_user_id) user
        then ok (none, db)
        else err (http 403 forbidden))
    else if p.is_manager
    then (if starts_at deputy access.deputy_user_id user
        then ok (none, db)
        else err (http 403 forbidden))
    else if is_none access.unit_supervisor_user_id
    then err (http 400 no_supervisor)
    else if starts_at unit_supervisor access.unit_supervisor_user_id user
    then ok (access.unit_supervisor_user_id, db)
    else err (http 403 forbidden)

-- The framework that the record is stamped with.
unfoldable pub framework_for : Personnel → Db → IndicatorFramework × Db
framework_for p db = elim (assessment_for_contract db p.id p.contract_start_date) [
  | none ↦ ensure_framework db
  | some a ↦ elim (framework_by_id a.indicator_framework_id db) [
    | none ↦ ensure_framework db
    | some f ↦ (f, db)
  ]
]

abbrev pub period_id_of : Option EvaluationPeriod → Option ℕ
period_id_of none = none
period_id_of (some p) = some p.id

abbrev pub scheme_id_of : Option ScoringScheme → Option ℕ
scheme_id_of none = none
scheme_id_of (some s) = some s.id

-- The row of a new record; the columns that the code does not give are empty.
unfoldable pub new_record :
    Env → Db → Personnel → EvaluationAccess → Option ℕ → IndicatorFramework → Evaluation
new_record env db p access supervisor framework = record {
  id = db.next_id;
  evaluation_code = db.evaluation_code_seq;
  verify_token = none;
  subject_personnel_id = p.id;
  unit_supervisor_user_id = supervisor;
  deputy_user_id = access.deputy_user_id;
  ceo_user_id = access.ceo_user_id;
  hr_user_id = none;
  period_id = period_id_of (open_period db);
  scoring_scheme_id = scheme_id_of (active_scheme db);
  indicator_framework_id = some framework.id;
  status = draft;
  base_weighted_pct = none;
  general_score_pct = none;
  specialized_score_pct = none;
  final_weighted_pct = none;
  recommendation = none;
  bonus_points = none;
  bonus_reason = none;
  evaluator_comment = none;
  final_snapshot = none;
  stage_entered_at = env.now;
  finalized_at = none;
  self_assessment_submitted_at = none;
  subject_contract_start_date = some p.contract_start_date;
  subject_contract_end_date = some p.contract_end_date;
  submission_extended_until = none;
  submission_extended_at = none;
  submission_extended_by_user_id = none;
  submission_extension_reason = none;
  acknowledged_at = none;
  acknowledged_by_user_id = none;
  objection_at = none;
  objection_reason = none;
  objection_resolved_at = none;
  objection_resolution = none;
  objection_resolved_by_user_id = none;
}

-- The record is added, and its first status logged.
unfoldable pub add_record :
    Env → CurrentUser → Personnel → EvaluationAccess → Option ℕ → Db → Evaluation × Db
add_record env user p access supervisor db =
    let f = framework_for p db in
    let r = new_record env f.1 p access supervisor f.0 in
    let added = record f.1 {
      evaluations = r ∷ f.1.evaluations;
      next_id = f.1.next_id + 1;
      evaluation_code_seq = f.1.evaluation_code_seq + 1;
    } in
    (
      r,
      log_event env user.id "status_changed" (some r.id) none
          (some (("status", text (status_value draft)) ∷ [])) added,
    )

-- The role test of the endpoint.
require_supervisor : CurrentUser → Exec Db (Unit {0})
require_supervisor user = raise_if (not (may_act_at user.role unit_supervisor)) (http 403 forbidden)

no_seats_dead : EvaluationAccess → Exec Db (Unit {0})
no_seats_dead access db = elim (inactive_seat_labels db access) [
  | [] ↦ ok (tt, db)
  | _ ∷ _ ↦ err (http 400 inactive_seats)
]

-- `create_evaluation`.
unfoldable pub create_evaluation : Env → ℕ → CurrentUser → Exec Db Evaluation
unfolding require_supervisor no_seats_dead
create_evaluation env subject_personnel_id user = do
  require_supervisor user
  p ← or_raise (← gets (personnel_by_id subject_personnel_id)) (http 404 not_found)
  raise_if (not (is_active_personnel p.status)) (http 400 inactive_personnel)
  access ← or_raise (← gets (access_of p.id)) (http 400 no_access_row)
  no_seats_dead access
  supervisor ← opening_seat p access user
  raise_if (← gets (has_open_record p.id)) (http 409 open_case_exists)
  r ← gets (λ db. add_record env user p access supervisor db)
  modify (λ _. r.1)
  pure r.0
