-- ===== src/Cases/Chain/Moves.antt =====
-- backend/app/api/routers/evaluations.py: what an endpoint of the chain does to the stage of a
-- record.
use nafas_hr.Prelude.{◌≡◌, refl, true, String, arith, if◌then◌else◌}
use nafas_hr.Model.Enums.{
  UserRole, hr, deputy, CommentStage, hr_review, deputy_review, ceo_final, Action, deputy_approve,
  ceo_finalize, hr_return, deputy_return, ceo_return, ceo_return_manager, cancel, is_finalized,
}
use nafas_hr.Model.Values.{Env, ok}
use nafas_hr.Model.Evaluation.{Evaluation}
use nafas_hr.Model.Tables.{CurrentUser}
use nafas_hr.Model.Store.{Case}
use nafas_hr.Web.{Exec}
use nafas_hr.Workflow.Roles.{is_manager_path, is_direct_ceo_path}
use nafas_hr.Workflow.Table.{transition}
use nafas_hr.Workflow.Apply.{apply_transition, no_before}
use nafas_hr.Workflow.Advance.{KeepsStage, SameSeats, apply_transition-Advance}
use nafas_hr.Workflow.Diagram.{path_of, on_route, Edge, Advance-Edge, chosen}
use nafas_hr.Scoring.Floats.{FloatOps}
use nafas_hr.Scoring.Finalize.{finalize_scoring}
use nafas_hr.Cases.Chain.{
  submit_evaluation, submit_action, approve_action, hr_approve_evaluation,
  deputy_approve_evaluation, ceo_finalize_evaluation, return_evaluation, cancel_evaluation,
  seal_record, explain_return, explain_cancel, require_chain_stage, require_hr,
  ensure_not_about_oneself,
}
use nafas_hr.Window.{ensure_open}
use nafas_hr.Guards.{ensure_not_deciding_about_oneself}
use nafas_hr.Cases.Chain.Keeps.{
  Seals, no_before-KeepsStage, explain_return-KeepsStage, explain_cancel-KeepsStage,
  seal_record-KeepsStage, finalize_scoring-KeepsStage, seal_record-Seals,
}

-- A call of an endpoint, with what the request carries.
pub data Call : Type 0 where
  call_submit call_hr_approve call_deputy_approve call_ceo_finalize : Call
  call_return call_cancel : String → Call

-- The endpoint of a call.
unfoldable pub run_call :
    {F : Type 0} → FloatOps F → Env → CurrentUser → Call → Exec Case (Unit {0})
run_call fl env user call_submit = submit_evaluation fl env user
run_call fl env user call_hr_approve = hr_approve_evaluation env user
run_call fl env user call_deputy_approve = deputy_approve_evaluation env user
run_call fl env user call_ceo_finalize = ceo_finalize_evaluation env user
run_call fl env user (call_return reason) = return_evaluation env reason user
run_call fl env user (call_cancel reason) = cancel_evaluation env reason user

-- A transition that an endpoint of the chain takes the record through.
pub record Taken (env : Env) (user : CurrentUser) (c c' : Case) : Type 0 where
  pub action : Action
  pub before : Exec Case (Unit {0})
  pub fits : chosen action c.record_ ≡ true
  pub keeps : (m m' : Case) → before m ≡ ok (tt, m') → KeepsStage m.record_ m'.record_
  pub seals :
      is_finalized (transition action).to_status ≡ true
      → (m m' : Case) → before m ≡ ok (tt, m')
      → Seals m.record_ m'.record_
  pub went : apply_transition env action user before c ≡ ok (tt, c')

-- The action that the endpoint chooses fits the path.
submit_action-chosen : (r : Evaluation) → chosen (submit_action r) r ≡ true
unfolding chosen submit_action is_direct_ceo_path is_manager_path
submit_action-chosen r = ground arith

approve_action-chosen : (r : Evaluation) → chosen (approve_action r) r ≡ true
unfolding chosen approve_action is_direct_ceo_path is_manager_path
approve_action-chosen r = ground arith

submit_action-open :
    (r : Evaluation) → ¬ (is_finalized (transition (submit_action r)).to_status ≡ true)
unfolding transition submit_action
submit_action-open r f = ground arith

submit_evaluation-Taken :
    {F : Type 0} (fl : FloatOps F) (env : Env) (user : CurrentUser) (c c' : Case)
    → submit_evaluation fl env user c ≡ ok (tt, c')
    → Taken env user c c'
unfolding submit_evaluation require_chain_stage ensure_open
submit_evaluation-Taken fl env user c c' h = record {
  action = submit_action c.record_;
  before = finalize_scoring fl env user;
  fits = submit_action-chosen c.record_;
  keeps = finalize_scoring-KeepsStage fl env user;
  seals = λ f. absurd (submit_action-open c.record_ f);
  went = ground arith;
}

-- What human resources do before they pass a record on.
before_approval : Env → Evaluation → Exec Case (Unit {0})
before_approval env r = if is_direct_ceo_path r then seal_record env else no_before

before_approval-KeepsStage :
    (env : Env) (r : Evaluation) (m m' : Case)
    → before_approval env r m ≡ ok (tt, m')
    → KeepsStage m.record_ m'.record_
unfolding before_approval
before_approval-KeepsStage env r m m' h =
    ground (arith, seal_record-KeepsStage env m m', no_before-KeepsStage m m')

approval-Seals :
    (env : Env) (r : Evaluation)
    → is_finalized (transition (approve_action r)).to_status ≡ true
    → (m m' : Case) → before_approval env r m ≡ ok (tt, m')
    → Seals m.record_ m'.record_
unfolding transition approve_action before_approval
approval-Seals env r f m m' e = ground (arith, seal_record-Seals env m m')

hr_approve-Taken :
    (env : Env) (user : CurrentUser) (c c' : Case)
    → hr_approve_evaluation env user c ≡ ok (tt, c')
    → Taken env user c c'
unfolding hr_approve_evaluation require_hr ensure_not_about_oneself
    ensure_not_deciding_about_oneself before_approval
hr_approve-Taken env user c c' h = record {
  action = approve_action c.record_;
  before = before_approval env c.record_;
  fits = approve_action-chosen c.record_;
  keeps = before_approval-KeepsStage env c.record_;
  seals = approval-Seals env c.record_;
  went = ground arith;
}

deputy_approve-Taken :
    (env : Env) (user : CurrentUser) (c c' : Case)
    → deputy_approve_evaluation env user c ≡ ok (tt, c')
    → Taken env user c c'
unfolding deputy_approve_evaluation require_chain_stage chosen transition
deputy_approve-Taken env user c c' h = record {
  action = deputy_approve;
  before = no_before;
  fits = refl;
  keeps = no_before-KeepsStage;
  seals = λ f m m' e. absurd (ground arith);
  went = ground arith;
}

ceo_finalize-Taken :
    (env : Env) (user : CurrentUser) (c c' : Case)
    → ceo_finalize_evaluation env user c ≡ ok (tt, c')
    → Taken env user c c'
unfolding ceo_finalize_evaluation require_chain_stage chosen
ceo_finalize-Taken env user c c' h = record {
  action = ceo_finalize;
  before = seal_record env;
  fits = refl;
  keeps = seal_record-KeepsStage env;
  seals = λ f m m' e. seal_record-Seals env m m' e;
  went = ground arith;
}

cancel-Taken :
    (env : Env) (reason : String) (user : CurrentUser) (c c' : Case)
    → cancel_evaluation env reason user c ≡ ok (tt, c')
    → Taken env user c c'
unfolding cancel_evaluation require_hr ensure_not_about_oneself ensure_not_deciding_about_oneself
    chosen transition
cancel-Taken env reason user c c' h = record {
  action = cancel;
  before = explain_cancel env user reason;
  fits = refl;
  keeps = explain_cancel-KeepsStage env user reason;
  seals = λ f m m' e. absurd (ground arith);
  went = ground arith;
}

-- The action and the stage of the comment of a return, by the role.
return_action : UserRole → Evaluation → Action
return_action hr r = hr_return
return_action deputy r = deputy_return
return_action _ r = if is_manager_path r then ceo_return_manager else ceo_return

return_stage : UserRole → CommentStage
return_stage hr = hr_review
return_stage deputy = deputy_review
return_stage _ = ceo_final

return_action-chosen : (role : UserRole) (r : Evaluation) → chosen (return_action role r) r ≡ true
unfolding chosen return_action
return_action-chosen role r = ground arith

return_action-open :
    (role : UserRole) (r : Evaluation)
    → ¬ (is_finalized (transition (return_action role r)).to_status ≡ true)
unfolding transition return_action
return_action-open role r f = ground arith

return-Taken :
    (env : Env) (reason : String) (user : CurrentUser) (c c' : Case)
    → return_evaluation env reason user c ≡ ok (tt, c')
    → Taken env user c c'
unfolding return_evaluation return_action return_stage
return-Taken env reason user c c' h = record {
  action = return_action user.role c.record_;
  before = explain_return env user (return_stage user.role) reason;
  fits = return_action-chosen user.role c.record_;
  keeps = explain_return-KeepsStage env user (return_stage user.role) reason;
  seals = λ f. absurd (return_action-open user.role c.record_ f);
  went = ground arith;
}

pub run_call-Taken :
    {F : Type 0} (fl : FloatOps F) (env : Env) (user : CurrentUser) (call : Call) (c c' : Case)
    → run_call fl env user call c ≡ ok (tt, c')
    → Taken env user c c'
unfolding run_call
run_call-Taken fl env user call_submit c c' h = submit_evaluation-Taken fl env user c c' h
run_call-Taken fl env user call_hr_approve c c' h = hr_approve-Taken env user c c' h
run_call-Taken fl env user call_deputy_approve c c' h = deputy_approve-Taken env user c c' h
run_call-Taken fl env user call_ceo_finalize c c' h = ceo_finalize-Taken env user c c' h
run_call-Taken fl env user (call_return reason) c c' h = return-Taken env reason user c c' h
run_call-Taken fl env user (call_cancel reason) c c' h = cancel-Taken env reason user c c' h

-- What an endpoint of the chain that answers has done to the stage of the record.
pub record Moved (c c' : Case) : Type 0 where
  pub edge : Edge (path_of c.record_) c.record_.status c'.record_.status
  pub seats : SameSeats c.record_ c'.record_

-- A request of the chain that is answered moves a record along an arrow of the diagram of its path and
-- leaves the seats of the path alone, where the record was at a stage of its path.
pub run_call-Moved :
    {F : Type 0} (fl : FloatOps F) (env : Env) (user : CurrentUser) (call : Call) (c c' : Case)
    → on_route (path_of c.record_) c.record_.status ≡ true
    → run_call fl env user call c ≡ ok (tt, c')
    → Moved c c'
run_call-Moved fl env user call c c' o h =
    let t = run_call-Taken fl env user call c c' h in
    let d = apply_transition-Advance env t.action user t.before c c' t.keeps t.went in
    record { edge = Advance-Edge t.action user c c' d t.fits o; seats = d.seats }
