-- ===== src/Workflow/Apply.antt =====
-- backend/app/services/workflow.py: `apply_transition`, as an action over the record and the tables.
-- `before` is the logic of one endpoint, which may raise and may change both.
use nafas_hr.Prelude.{
  ℕ, ◌==◌, Bool, true, ◌&&◌, ◌||◌, not, none, some, [], ◌∷◌, String, is_none, any, if◌then◌else◌,
}
use nafas_hr.Model.Enums.{EvaluationStatus, is_finalized, status_value, Action}
use nafas_hr.Model.Values.{num, text, flag, Env, http, no_result, ok, err}
use nafas_hr.Model.Evaluation.{Evaluation}
use nafas_hr.Model.Tables.{CurrentUser}
use nafas_hr.Model.Store.{Db, Case}
use nafas_hr.Web.{Exec, raise_if, modify, ◌>>=◌, ◌>>◌}
use nafas_hr.Audit.{log_event}
use nafas_hr.Notifications.{notify_for_workflow_action}
use nafas_hr.Workflow.Table.{
  SeatField, unit_supervisor_user_id, deputy_user_id, ceo_user_id, hr_user_id, seat, Transition,
  transition, ensure_transition_allowed,
}

-- `setattr(record, field, user_id)`.
unfoldable pub set_seat : SeatField → ℕ → Evaluation → Evaluation
set_seat unit_supervisor_user_id n r = record r { unit_supervisor_user_id = some n }
set_seat deputy_user_id n r = record r { deputy_user_id = some n }
set_seat ceo_user_id n r = record r { ceo_user_id = n }
set_seat hr_user_id n r = record r { hr_user_id = some n }

unfoldable pub seat_key : SeatField → String
seat_key unit_supervisor_user_id = "unit_supervisor_user_id"
seat_key deputy_user_id = "deputy_user_id"
seat_key ceo_user_id = "ceo_user_id"
seat_key hr_user_id = "hr_user_id"

-- The seat, if it may be taken and is empty, is the user's from now on.
unfoldable pub claim : Env → Transition → CurrentUser → Case → Case
unfolding seat
claim env spec user c = elim spec.assignee_field [
  | none ↦ c
  | some field ↦
      if spec.claimable_if_unassigned && is_none (seat field c.record_)
      then record c {
        record_ = set_seat field user.id c.record_;
        db =
            log_event env user.id "hr_case_claimed" (some c.record_.id) none
              (some ((seat_key field, num user.id) ∷ ("implicit", flag true) ∷ [])) c.db;
      }
      else c
]

-- The record in its new status, the clock of the stage started again.
unfoldable pub move : Env → EvaluationStatus → Evaluation → Evaluation
move env to_status r = record r {
  status = to_status;
  stage_entered_at = env.now;
  finalized_at =
      if is_finalized to_status && is_none r.finalized_at then some env.now else r.finalized_at;
}

-- The last part of `apply_transition`: the change of status, its row in the log, the notifications.
unfoldable pub finish : Env → Action → CurrentUser → Case → Case
finish env action user c =
    let r = move env (transition action).to_status c.record_ in
    record {
      record_ = r;
      db = notify_for_workflow_action env r action (
          log_event env user.id "status_changed" (some r.id)
            (some (("status", text (status_value c.record_.status)) ∷ []))
            (some (("status", text (status_value r.status)) ∷ [])) c.db);
    }

-- `has_scores`.
unfoldable pub has_scores : Evaluation → Db → Bool
has_scores r db = any (λ s. s.evaluation_record_id == r.id) db.scores

-- A record that has no computed result may not be finalized.
unfoldable pub lacks_result : Action → Case → Bool
lacks_result action c =
    is_finalized (transition action).to_status
    && (is_none c.record_.final_weighted_pct || not (has_scores c.record_ c.db))

abbrev check_allowed : Action → CurrentUser → Exec Case Transition
check_allowed action user c = elim (ensure_transition_allowed c.record_ action user) [
  | ok spec ↦ ok (spec, c)
  | err e ↦ err e
]

abbrev check_result : Action → Exec Case (Unit {0})
check_result action c = raise_if (lacks_result action c) (http 400 no_result) c

-- `apply_transition`.
unfoldable pub apply_transition :
    Env → Action → CurrentUser → Exec Case (Unit {0}) → Exec Case (Unit {0})
apply_transition env action user before = do
  spec ← check_allowed action user
  check_result action
  modify (claim env spec user)
  before
  modify (finish env action user)

-- An endpoint that has no `before`.
abbrev pub no_before : Exec Case (Unit {0})
no_before c = ok (tt, c)
