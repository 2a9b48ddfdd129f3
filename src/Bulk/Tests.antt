-- ===== src/Bulk/Tests.antt =====
-- The theorems about records opened for a cohort, on the small company.
use nafas_hr.Prelude.{◌≡◌, refl, true, false, none, List, [], map, All}
use nafas_hr.Model.Values.{ok, is_ok, Result}
use nafas_hr.Model.Store.{Db}
use nafas_hr.Samples.{monday, company, worker, worker_access, supervisor_user}
use nafas_hr.Cases.Open.{
  create_evaluation, access_of, assessment_for_contract, has_open_record, new_record,
}
use nafas_hr.Guards.{inactive_seat_labels, is_dead}
use nafas_hr.Framework.{
  ensure_framework, current_framework, active_member_ids, bump, framework_by_id, same_ids,
}
use nafas_hr.Scheme.{active_scheme}
use nafas_hr.Window.{open_period}
use nafas_hr.Cases.Snapshot.{personnel_by_id}
use nafas_hr.Workflow.Roles.{may_act_at}
use nafas_hr.Bulk.{
  CohortFilter, PersonPlan, is_created, plan, execute, execute_all, load_cohort, in_cohort,
  execute_one, plan_one, open_record_of, plan_access, open_planned, assignee_of, batch_framework,
  batch_record, insert_record,
}
use nafas_hr.Bulk.Promise.{undisturbed, execute-outcomes}
use nafas_hr.Bulk.Again.{run_again_opens_none}
use nafas_hr.Bulk.Single.{assignee_may_open}

abbrev everybody : CohortFilter
everybody = record { org_unit = none; only_managers = none; contract_ends_before = none }

abbrev done_plans : Result (List PersonPlan × Db) → List PersonPlan
done_plans (ok (plans, db)) = plans
done_plans _ = []

abbrev db_after : Result (List PersonPlan × Db) → Db
db_after (ok (plans, db)) = db
db_after _ = company []

abbrev run : Result (List PersonPlan × Db)
run = execute monday undisturbed everybody (company [])

run_goes_through : run ≡ ok (done_plans run, db_after run)
unfolding execute execute_all plan load_cohort in_cohort execute_one plan_one open_record_of
    access_of plan_access inactive_seat_labels is_dead open_planned ensure_framework
    current_framework active_member_ids personnel_by_id assignee_of batch_framework batch_record
    insert_record assessment_for_contract has_open_record new_record bump framework_by_id same_ids
    active_scheme open_period
run_goes_through = refl

outcomes_example :
    map (λ p. p.outcome) (done_plans run) ≡ map (λ p. p.outcome) (plan everybody (company []))
outcomes_example =
    execute-outcomes monday everybody (done_plans run) (company []) (db_after run) (tt, tt)
      run_goes_through

again_example : All (λ p. is_created p.outcome ≡ false) (plan everybody (db_after run))
again_example =
    run_again_opens_none monday everybody (done_plans run) (company []) (db_after run)
      run_goes_through

may_open_example : is_ok (create_evaluation monday 1 supervisor_user (company [])) ≡ true
unfolding personnel_by_id access_of plan_one open_record_of plan_access inactive_seat_labels is_dead
    assignee_of may_act_at
may_open_example =
    assignee_may_open monday worker worker_access (company []) supervisor_user refl refl refl refl
      refl refl
