-- ===== src/Cases/Deeds/Tests.antt =====
-- The life of the record of one worker, from its opening, and the theorems about records at it.
use nafas_hr.Prelude.{◌≡◌, refl, none, some, [], arith}
use nafas_hr.Samples.{
  monday, thousandths, supervisor_user, hr_user, deputy_user, case_at, record_at, company,
  state_after,
}
use nafas_hr.Model.Enums.{draft, hr_approved, finalized}
use nafas_hr.Model.Values.{Result, ok, err}
use nafas_hr.Model.Evaluation.{Evaluation}
use nafas_hr.Model.Store.{Db, Case}
use nafas_hr.Workflow.Roles.{may_act_at}
use nafas_hr.Workflow.Diagram.{path_of, on_route}
use nafas_hr.Workflow.Table.{ensure_transition_allowed, transition, holds_seat, seat}
use nafas_hr.Cases.Chain.{
  require_chain_stage, require_hr, ensure_not_about_oneself, deputy_approve_evaluation,
}
use nafas_hr.Cases.Open.{
  add_record, new_record, create_evaluation, access_of, opening_seat, starts_at, has_open_record,
}
use nafas_hr.Cases.Open.Unique.{OneOpenEach, open_count, create_evaluation-OneOpenEach}
use nafas_hr.Cases.Owners.{hr_claim, resolve_objection}
use nafas_hr.Cases.Chain.Moves.{call_deputy_approve, run_call, Moved, run_call-Moved}
use nafas_hr.Cases.Deeds.{run_deed, resolve, claim_case}
use nafas_hr.Cases.Deeds.Closed.{run_request, along, beside, Frozen}
use nafas_hr.Cases.Deeds.Sealing.{IsSound, passed_hr}
use nafas_hr.Cases.Deeds.Reach.{Steps, answered, elsewhere, stop, next, Steps-Frozen}
use nafas_hr.Guards.{is_about, ensure_not_deciding_about_oneself, inactive_seat_labels, is_dead}
use nafas_hr.Workflow.Apply.{apply_transition, lacks_result}
use nafas_hr.Cases.Snapshot.{personnel_by_id}
use nafas_hr.Cases.Deeds.Reach.{opened-Steps-IsSound}

-- The case once the deputy has approved it.
abbrev approved : Case
approved =
    state_after (case_at hr_approved (some 6000))
      (deputy_approve_evaluation monday deputy_user (case_at hr_approved (some 6000)))

approval_goes_through :
    run_call thousandths monday deputy_user call_deputy_approve (case_at hr_approved (some 6000))
    ≡ ok (tt, approved)
unfolding run_call deputy_approve_evaluation require_chain_stage may_act_at apply_transition
    ensure_transition_allowed transition holds_seat seat lacks_result
approval_goes_through = refl

Moved-example : Moved (case_at hr_approved (some 6000)) approved
unfolding on_route path_of
Moved-example =
    run_call-Moved thousandths monday deputy_user call_deputy_approve
      (case_at hr_approved (some 6000)) approved refl approval_goes_through

sample-IsSound : IsSound (record_at hr_approved (some 6000))
unfolding on_route path_of passed_hr
sample-IsSound = ground arith

-- The deputy approves, and then another request changes the tables.
approving-Steps :
    Steps thousandths (case_at hr_approved (some 6000)) (record approved { db = company [] })
unfolding run_request run_call
approving-Steps =
    next (answered monday deputy_user (along call_deputy_approve) approval_goes_through)
      (next (elsewhere (company [])) stop)

-- A finalized case with an objection that nobody has answered.
abbrev objected : Case
objected =
    let c = case_at finalized (some 6000) in
    record c { record_ = record c.record_ { objection_at = some 950 } }

abbrev resolved : Case
resolved = state_after objected (resolve_objection monday "upheld" hr_user objected)

resolving_goes_through :
    run_request thousandths monday hr_user (beside (resolve "upheld")) objected ≡ ok (tt, resolved)
unfolding run_request run_deed resolve_objection require_hr ensure_not_about_oneself
    ensure_not_deciding_about_oneself is_about
resolving_goes_through = refl

resolving-Steps : Steps thousandths objected resolved
resolving-Steps =
    next (answered monday hr_user (beside (resolve "upheld")) resolving_goes_through) stop

Frozen-example : Frozen objected.record_ resolved.record_
Frozen-example = Steps-Frozen thousandths resolving-Steps refl

-- The worker's first record is opened by the supervisor.
abbrev opened : Result (Evaluation × Db)
opened = create_evaluation monday 1 supervisor_user (company [])

abbrev opened_record : Result (Evaluation × Db) → Evaluation
opened_record (ok (r, db)) = r
opened_record (err e) = record_at draft none

abbrev opened_tables : Result (Evaluation × Db) → Db
opened_tables (ok (r, db)) = db
opened_tables (err e) = company []

opening_goes_through :
    create_evaluation monday 1 supervisor_user (company [])
    ≡ ok (opened_record opened, opened_tables opened)
unfolding create_evaluation may_act_at personnel_by_id access_of inactive_seat_labels is_dead
    opening_seat starts_at has_open_record
opening_goes_through = refl

none_open : OneOpenEach (company [])
unfolding OneOpenEach open_count
none_open n = ground arith

one_open_example : OneOpenEach (opened_tables opened)
one_open_example =
    create_evaluation-OneOpenEach monday 1 supervisor_user (company []) (opened_tables opened)
      (opened_record opened) none_open opening_goes_through

-- Human resources take the new record.
abbrev fresh : Case
fresh = record { record_ = opened_record opened; db = opened_tables opened }

abbrev taken : Case
taken = state_after fresh (hr_claim monday hr_user fresh)

claiming_goes_through :
    run_request thousandths monday hr_user (beside claim_case) fresh ≡ ok (tt, taken)
unfolding run_request run_deed hr_claim require_hr ensure_not_about_oneself
    ensure_not_deciding_about_oneself is_about create_evaluation may_act_at personnel_by_id
    access_of inactive_seat_labels is_dead opening_seat starts_at has_open_record add_record
    new_record
claiming_goes_through = refl

opened-Steps_example : IsSound taken.record_
opened-Steps_example =
    opened-Steps-IsSound thousandths monday 1 supervisor_user (company []) (opened_tables opened)
      (opened_record opened) opening_goes_through
      (next (answered monday hr_user (beside claim_case) claiming_goes_through) stop)
