-- ===== src/Bulk/Single.antt =====
-- A cohort of one and the endpoint for one record.
use nafas_hr.Prelude.{◌≡◌, ◌==◌, true, ◌&&◌, some, ==-refl, arith, if◌then◌else◌}
use nafas_hr.Model.Values.{Env, is_ok}
use nafas_hr.Model.Tables.{CurrentUser, Personnel, EvaluationAccess}
use nafas_hr.Model.Store.{Db}
use nafas_hr.Model.Enums.{UserRole, ceo, deputy, unit_supervisor}
use nafas_hr.Workflow.Roles.{may_act_at}
use nafas_hr.Workflow.Table.{is_open}
use nafas_hr.Bulk.Promise.{found_none}
use nafas_hr.Cases.Open.{has_open_record, access_of, create_evaluation, opening_seat, starts_at}
use nafas_hr.Cases.Snapshot.{personnel_by_id}
use nafas_hr.Bulk.{
  created, plan_person, plan_one, plan_access, open_record_of, assignee_of, has_direct_path,
}

-- The stage at which the record starts.
abbrev pub first_stage : Personnel → EvaluationAccess → UserRole
first_stage p access =
    if has_direct_path access then ceo else if p.is_manager then deputy else unit_supervisor

-- Where a plan announces a new record and names the one who scores it, that user may open the record
-- singly too: `create_evaluation` answers the user, provided that the user's role may act at the first
-- stage of the chain and at that of a supervisor.
pub assignee_may_open :
    (env : Env) (p : Personnel) (access : EvaluationAccess) (db : Db) (user : CurrentUser)
    → personnel_by_id p.id db ≡ some p
    → access_of p.id db ≡ some access
    → (plan_person db p).outcome ≡ created
    → (plan_person db p).assignee_user_id ≡ some user.id
    → may_act_at user.role unit_supervisor ≡ true
    → may_act_at user.role (first_stage p access) ≡ true
    → is_ok (create_evaluation env p.id user db) ≡ true
unfolding plan_one plan_access assignee_of create_evaluation opening_seat starts_at open_record_of
    has_open_record
assignee_may_open env p access db user e a h u r s = ground (
  arith,
  ==-refl user.id,
  found_none (λ r. r.subject_personnel_id == p.id && is_open r.status) db.evaluations,
)
