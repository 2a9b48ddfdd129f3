-- ===== src/Bulk.antt =====
-- backend/app/services/bulk_evaluation.py and `run_bulk_create` of
-- backend/app/api/routers/periods.py: records are opened for a cohort at once. The order of the
-- cohort is that of the table.
pub mod Request
pub mod Rounds
pub mod Promise
pub mod Single
pub mod Again
mod Tests
use text.Mathlib.Text.{◌==◌ as str_eq}
use nafas_hr.Prelude.{
  ℕ, ◌+◌, ◌==◌, Bool, true, false, not, ◌&&◌, ◌||◌, Option, none, some, List, [], ◌∷◌, String, map,
  first, select, dedup, leb, is_none, is_some, if◌then◌else◌,
}
use nafas_hr.Model.Enums.{is_active_personnel}
use nafas_hr.Model.Values.{
  Env, Json, num, day, flag, counts, Detail, Result, ok, err, http, internal_error,
}
use nafas_hr.Model.Evaluation.{Evaluation}
use nafas_hr.Model.Tables.{
  Personnel, EvaluationAccess, EvaluationPeriod, ScoringScheme, IndicatorFramework, CurrentUser,
  bulk_evaluations_assigned,
}
use nafas_hr.Model.Store.{Db}
use nafas_hr.Web.{Exec, or_raise, gets, pure, modify, ◌>>=◌, ◌>>◌}
use nafas_hr.Audit.{log_event}
use nafas_hr.Notifications.{notify}
use nafas_hr.Guards.{inactive_seat_labels}
use nafas_hr.Window.{open_period}
use nafas_hr.Scheme.{active_scheme}
use nafas_hr.Framework.{ensure_framework, framework_by_id}
use nafas_hr.Workflow.Table.{is_open}
use nafas_hr.Cases.Chain.{require_hr}
use nafas_hr.Cases.Snapshot.{personnel_by_id}
use nafas_hr.Cases.Open.{
  access_of, has_open_record, assessment_for_contract, new_record, period_id_of, scheme_id_of,
}

pub data BulkOutcome : Type 0 where
  created skipped_already_open : BulkOutcome
  blocked_inactive blocked_no_access_row blocked_no_supervisor blocked_inactive_seat : BulkOutcome
  blocked_conflict : BulkOutcome

-- `CohortFilter`.
pub record CohortFilter : Type 0 where
  pub org_unit : Option String
  pub only_managers : Option Bool
  pub contract_ends_before : Option ℕ

same_flag : Bool → Bool → Bool
same_flag true b = b
same_flag false b = not b

in_unit : Option String → Personnel → Bool
in_unit none p = true
in_unit (some unit) p = str_eq unit "" || str_eq p.org_unit unit

in_role : Option Bool → Personnel → Bool
in_role none p = true
in_role (some b) p = same_flag p.is_manager b

ends_by : Option ℕ → Personnel → Bool
ends_by none p = true
ends_by (some d) p = leb p.contract_end_date d

-- `CohortFilter.conditions`, on a row.
unfoldable pub in_cohort : CohortFilter → Personnel → Bool
unfolding same_flag in_unit in_role ends_by
in_cohort cohort p =
    in_unit cohort.org_unit p
    && (in_role cohort.only_managers p && ends_by cohort.contract_ends_before p)

-- `PersonPlan`.
pub record PersonPlan : Type 0 where
  pub personnel_id : ℕ
  pub full_name : String
  pub org_unit : String
  pub outcome : BulkOutcome
  pub evaluation_id : Option ℕ
  pub evaluation_code : Option ℕ
  pub assignee_user_id : Option ℕ
  pub manager_path : Bool

-- The plan of a person for whom nothing is to be opened.
abbrev pub without_record : Personnel → BulkOutcome → PersonPlan
without_record p outcome = record {
  personnel_id = p.id;
  full_name = p.full_name;
  org_unit = p.org_unit;
  outcome = outcome;
  evaluation_id = none;
  evaluation_code = none;
  assignee_user_id = none;
  manager_path = false;
}

-- `direct_ceo_path`.
abbrev pub has_direct_path : EvaluationAccess → Bool
has_direct_path access = is_none access.unit_supervisor_user_id && is_none access.deputy_user_id

-- `assignee`: the one who scores first.
unfoldable pub assignee_of : Personnel → EvaluationAccess → Option ℕ
assignee_of p access =
    if has_direct_path access
    then some access.ceo_user_id
    else if p.is_manager
    then access.deputy_user_id
    else access.unit_supervisor_user_id

abbrev has_dead_seat : Db → EvaluationAccess → Bool
has_dead_seat db access = elim (inactive_seat_labels db access) [ [] ↦ false | _ ∷ _ ↦ true ]

-- `_plan_one` for an active person with an access row and no open record.
unfoldable pub plan_access : Db → Personnel → EvaluationAccess → PersonPlan
plan_access db p access =
    if not p.is_manager && (is_none access.unit_supervisor_user_id && not (has_direct_path access))
    then without_record p blocked_no_supervisor
    else if has_dead_seat db access
    then without_record p blocked_inactive_seat
    else record (without_record p created) {
      assignee_user_id = assignee_of p access;
      manager_path = p.is_manager || has_direct_path access;
    }

-- `_plan_one`.
unfoldable pub plan_one : Db → Personnel → Option EvaluationAccess → Option Evaluation → PersonPlan
plan_one db p access open_record = elim open_record [
  | some r ↦ record (without_record p skipped_already_open) {
    evaluation_id = some r.id;
    evaluation_code = some r.evaluation_code;
  }
  | none ↦
      if not (is_active_personnel p.status)
      then without_record p blocked_inactive
      else elim access [
        | none ↦ without_record p blocked_no_access_row
        | some a ↦ plan_access db p a
      ]
]

-- `open_by_person.get(person.id)`.
unfoldable pub open_record_of : ℕ → Db → Option Evaluation
open_record_of personnel_id db =
    first (λ r. r.subject_personnel_id == personnel_id && is_open r.status) db.evaluations

abbrev pub plan_person : Db → Personnel → PersonPlan
plan_person db p = plan_one db p (access_of p.id db) (open_record_of p.id db)

-- `_load_cohort`.
unfoldable pub load_cohort : CohortFilter → Db → List Personnel
load_cohort cohort db = select (in_cohort cohort) db.personnel

-- `plan`.
unfoldable pub plan : CohortFilter → Db → List PersonPlan
plan cohort db = map (plan_person db) (load_cohort cohort db)

abbrev pub is_created : BulkOutcome → Bool
is_created created = true
is_created _ = false

-- What `execute` reads once for the whole cohort.
pub record Batch : Type 0 where
  pub loaded : Db
  pub period : Option EvaluationPeriod
  pub scheme : Option ScoringScheme
  pub framework : IndicatorFramework

-- `record_framework`.
unfoldable pub batch_framework : Batch → Personnel → Db → Option IndicatorFramework
batch_framework batch p db = elim (assessment_for_contract db p.id p.contract_start_date) [
  | none ↦ some batch.framework
  | some a ↦ framework_by_id a.indicator_framework_id db
]

-- The row that `execute` builds.
unfoldable pub batch_record :
    Env → Batch → Bool → Personnel → EvaluationAccess → IndicatorFramework → Db → Evaluation
batch_record env batch on_manager_path p access framework db =
    let supervisor = if on_manager_path then none else access.unit_supervisor_user_id in
    record (new_record env db p access supervisor framework) {
      period_id = period_id_of batch.period;
      scoring_scheme_id = scheme_id_of batch.scheme;
    }

-- The insertion behind a savepoint: the unique index refuses a second open record of a person. The
-- sequences go on in both cases.
unfoldable pub insert_record : PersonPlan → Evaluation → Db → PersonPlan × Db
insert_record person_plan r db =
    let counted = record db {
      next_id = db.next_id + 1;
      evaluation_code_seq = db.evaluation_code_seq + 1;
    } in
    if has_open_record r.subject_personnel_id db
    then (record person_plan { outcome = blocked_conflict }, counted)
    else (
      record person_plan { evaluation_id = some r.id; evaluation_code = some r.evaluation_code },
      record counted { evaluations = r ∷ db.evaluations },
    )

-- The round of a person for whom a record is to be opened.
unfoldable pub open_planned : Env → Batch → PersonPlan → Exec Db PersonPlan
open_planned env batch person_plan = do
  access ← or_raise (access_of person_plan.personnel_id batch.loaded) (http 500 internal_error)
  p ← or_raise (personnel_by_id person_plan.personnel_id batch.loaded) (http 500 internal_error)
  f ← or_raise (← gets (batch_framework batch p)) (http 500 internal_error)
  done ← gets (λ db.
      insert_record person_plan (batch_record env batch person_plan.manager_path p access f db) db)
  modify (λ _. done.1)
  pure done.0

-- One round of the loop of `execute`.
unfoldable pub execute_one : Env → Batch → PersonPlan → Exec Db PersonPlan
execute_one env batch person_plan =
    if is_created person_plan.outcome then open_planned env batch person_plan else pure person_plan

-- The loop of `execute`. Before each round other requests may commit; `elsewhere` is what they do.
unfoldable pub execute_all :
    Env → Batch → (ℕ → Db → Db) → List PersonPlan → Exec Db (List PersonPlan)
execute_all env batch elsewhere [] = pure []
execute_all env batch elsewhere (person_plan ∷ plans) = do
  modify (elsewhere person_plan.personnel_id)
  done ← execute_one env batch person_plan
  rest ← execute_all env batch elsewhere plans
  pure (done ∷ rest)

-- `execute`.
unfoldable pub execute : Env → (ℕ → Db → Db) → CohortFilter → Exec Db (List PersonPlan)
execute env elsewhere cohort db =
    let plans = plan cohort db in
    let ensured = ensure_framework db in
    let batch : Batch = record {
      loaded = ensured.1;
      period = open_period db;
      scheme = active_scheme db;
      framework = ensured.0;
    } in
    execute_all env batch elsewhere plans ensured.1
