-- ===== src/Cases/Chain.antt =====
-- backend/app/api/routers/evaluations.py: the endpoints that move a record along its chain: submit,
-- hr-approve, deputy-approve, ceo-finalize, return and cancel.
pub mod Keeps
pub mod Moves
pub mod Passing
pub mod Accounts
pub mod HrStep
pub mod Completion
pub mod Answers
use nafas_hr.Prelude.{
  ℕ, ◌+◌, Bool, true, false, ◌&&◌, not, Option, none, some, [], ◌∷◌, String, if◌then◌else◌,
}
use nafas_hr.Model.Enums.{
  UserRole, unit_supervisor, hr, deputy, ceo, is_hr, CommentStage, hr_review, deputy_review,
  ceo_final, Action, submit, manager_submit, direct_ceo_submit, hr_approve, hr_finalize_direct_ceo,
  hr_approve_manager, deputy_approve, ceo_finalize, hr_return, deputy_return, ceo_return,
  ceo_return_manager, cancel, status_value,
}
use nafas_hr.Model.Values.{
  Env, text, http, forbidden, no_previous_stage, snapshot_without_personnel, Result, ok, err,
}
use nafas_hr.Model.Evaluation.{
  Evaluation, Comment, CommentText, returned, cancelled_because, Snapshot,
}
use nafas_hr.Model.Tables.{CurrentUser}
use nafas_hr.Model.Store.{Db, Case}
use nafas_hr.Web.{Exec, pure, raise, raise_if, or_raise, modify, gets, ◌>>=◌, ◌>>◌}
use nafas_hr.Audit.{log_event}
use nafas_hr.Guards.{ensure_not_deciding_about_oneself}
use nafas_hr.Workflow.Roles.{is_manager_path, is_direct_ceo_path, may_act_at}
use nafas_hr.Workflow.Apply.{apply_transition, no_before}
use nafas_hr.Window.{ensure_open}
use nafas_hr.Scoring.Floats.{FloatOps}
use nafas_hr.Scoring.Finalize.{finalize_scoring}
use nafas_hr.Cases.Snapshot.{build_final_snapshot}

-- `require_chain_stage` of backend/app/api/deps.py.
unfoldable pub require_chain_stage : UserRole → CurrentUser → Exec Case (Unit {0})
require_chain_stage stage user = raise_if (not (may_act_at user.role stage)) (http 403 forbidden)

-- `require_roles(UserRole.hr)`.
unfoldable pub require_hr : {S : Type 0} → CurrentUser → Exec S (Unit {0})
require_hr user = raise_if (not (is_hr user.role)) (http 403 forbidden)

-- `ensure_not_deciding_about_oneself`, for the record at hand.
unfoldable pub ensure_not_about_oneself : CurrentUser → Exec Case (Unit {0})
ensure_not_about_oneself user c =
    ensure_not_deciding_about_oneself c.record_.subject_personnel_id user c

-- `db.add(EvaluationComment(...))`, with no parent.
unfoldable pub add_top_comment : CurrentUser → CommentStage → CommentText → Case → Case
add_top_comment user stage words c = record c {
  db = record c.db {
    comments =
        (record {
          id = c.db.next_id;
          evaluation_record_id = c.record_.id;
          commenter_user_id = user.id;
          parent_comment_id = none;
          stage = stage;
          comment_text = words;
        })
        ∷ c.db.comments;
    next_id = c.db.next_id + 1;
  };
}

-- The transition by which the path of the record submits it.
unfoldable pub submit_action : Evaluation → Action
submit_action r =
    if is_direct_ceo_path r
    then direct_ceo_submit
    else if is_manager_path r
    then manager_submit
    else submit

-- `submit_evaluation`.
unfoldable pub submit_evaluation :
    {F : Type 0} → FloatOps F → Env → CurrentUser → Exec Case (Unit {0})
submit_evaluation fl env user = do
  require_chain_stage unit_supervisor user
  ensure_open env
  action ← gets (λ c. submit_action c.record_)
  apply_transition env action user (finalize_scoring fl env user)

-- The transition by which human resources pass a record on.
unfoldable pub approve_action : Evaluation → Action
approve_action r =
    if is_direct_ceo_path r
    then hr_finalize_direct_ceo
    else if is_manager_path r
    then hr_approve_manager
    else hr_approve

-- The columns that a finalization fills, with the snapshot of the record.
unfoldable pub seal : Env → Snapshot → Evaluation → Evaluation
seal env snapshot r = record r { final_snapshot = some snapshot; verify_token = some env.token }

abbrev with_snapshot : Env → Option Snapshot → Exec Case (Unit {0})
with_snapshot env none = raise (http 500 snapshot_without_personnel)
with_snapshot env (some s) = modify (λ c. record c { record_ = seal env s c.record_ })

stamp_finalized : Env → Case → Case
stamp_finalized env c = record c { record_ = record c.record_ { finalized_at = some env.now } }

-- `_before` of `ceo_finalize`, and `_finalize_direct_ceo_record`.
unfoldable pub seal_record : Env → Exec Case (Unit {0})
unfolding stamp_finalized
seal_record env = do
  modify (stamp_finalized env)
  snapshot ← gets (λ c. build_final_snapshot c.db c.record_)
  with_snapshot env snapshot

-- `hr_approve`.
unfoldable pub hr_approve_evaluation : Env → CurrentUser → Exec Case (Unit {0})
hr_approve_evaluation env user = do
  require_hr user
  ensure_not_about_oneself user
  r ← gets (λ c. c.record_)
  apply_transition env (approve_action r) user
      (if is_direct_ceo_path r then seal_record env else no_before)

-- `deputy_approve`.
unfoldable pub deputy_approve_evaluation : Env → CurrentUser → Exec Case (Unit {0})
deputy_approve_evaluation env user = do
  require_chain_stage deputy user
  apply_transition env deputy_approve user no_before

-- `ceo_finalize`.
unfoldable pub ceo_finalize_evaluation : Env → CurrentUser → Exec Case (Unit {0})
ceo_finalize_evaluation env user = do
  require_chain_stage ceo user
  apply_transition env ceo_finalize user (seal_record env)

-- `_before` of `return_evaluation`.
unfoldable pub explain_return : Env → CurrentUser → CommentStage → String → Exec Case (Unit {0})
explain_return env user stage reason = do
  modify (add_top_comment user stage (returned reason))
  modify (λ c. record c {
    db =
        log_event env user.id "evaluation_returned" (some c.record_.id) none
          (some (("reason", text reason) ∷ [])) c.db;
  })

-- `return_evaluation`, by the role of the user, `_RETURN_ACTION_BY_ROLE`.
unfoldable pub return_evaluation : Env → String → CurrentUser → Exec Case (Unit {0})
return_evaluation env reason user = elim user.role [
  | hr ↦ apply_transition env hr_return user (explain_return env user hr_review reason)
  | deputy ↦ (do
    manager ← gets (λ c. is_manager_path c.record_)
    raise_if manager (http 400 no_previous_stage)
    apply_transition env deputy_return user (explain_return env user deputy_review reason))
  | ceo ↦ (do
    manager ← gets (λ c. is_manager_path c.record_)
    apply_transition env (if manager then ceo_return_manager else ceo_return) user
        (explain_return env user ceo_final reason))
  | _ ↦ raise (http 403 forbidden)
]

-- `_before` of `cancel_evaluation`.
unfoldable pub explain_cancel : Env → CurrentUser → String → Exec Case (Unit {0})
explain_cancel env user reason = do
  modify (add_top_comment user hr_review (cancelled_because reason))
  modify (λ c. record c {
    db =
        log_event env user.id "evaluation_cancelled" (some c.record_.id)
          (some (("status", text (status_value c.record_.status)) ∷ []))
          (some (("reason", text reason) ∷ [])) c.db;
  })

-- `cancel_evaluation`.
unfoldable pub cancel_evaluation : Env → String → CurrentUser → Exec Case (Unit {0})
cancel_evaluation env reason user = do
  require_hr user
  ensure_not_about_oneself user
  apply_transition env cancel user (explain_cancel env user reason)
