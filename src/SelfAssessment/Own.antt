-- ===== src/SelfAssessment/Own.antt =====
-- backend/app/api/routers/me.py: what the one who is evaluated may answer to a final result, to
-- have seen it and to object to it.
use nafas_hr.Prelude.{
  ℕ, ◌+◌, ◌*◌, ◌==◌, ◌≡◌, true, false, not, none, some, [], ◌∷◌, String, ltb, is_some, refl, arith,
}
use nafas_hr.Model.Enums.{is_finalized}
use nafas_hr.Model.Values.{
  Env, num, text, http, not_found, module_off, not_finalized, already_acknowledged,
  not_acknowledged, already_objected, objection_too_late, is_ok,
}
use nafas_hr.Model.Tables.{CurrentUser, evaluation_acknowledged, evaluation_objection_filed}
use nafas_hr.Model.Store.{Db, Case}
use nafas_hr.Web.{Exec, raise_if, or_raise, gets, modify, ◌>>=◌, ◌>>◌}
use nafas_hr.Audit.{log_event}
use nafas_hr.Notifications.{notify, active_hr_ids}
use nafas_hr.Modules.{is_module_enabled, stored_state}
use nafas_hr.Modules.Laws.{module_state_locked}
use nafas_hr.SelfAssessment.Submit.{require_own_personnel}

-- `require_module`, for a request that works on a record.
unfoldable pub require_module_of_case : String → Exec Case (Unit {0})
require_module_of_case key c = raise_if (not (is_module_enabled c.db key)) (http 403 module_off) c

-- `_my_record_or_404`.
unfoldable pub require_own_record : CurrentUser → Exec Case (Unit {0})
require_own_record user = do
  id ← require_own_personnel user
  own ← gets (λ c. c.record_.subject_personnel_id == id)
  raise_if (not own) (http 404 not_found)

-- The record as it is when the result has been seen.
unfoldable pub put_acknowledged : Env → CurrentUser → Case → Case
put_acknowledged env user c = record c {
  record_ = record c.record_ {
    acknowledged_at = some env.now;
    acknowledged_by_user_id = some user.id;
  };
  db = notify env (active_hr_ids c.db) evaluation_acknowledged (some c.record_.id) (
      log_event env user.id "evaluation_acknowledged" (some c.record_.id) none
        (some (("acknowledged_at", num env.now) ∷ [])) c.db);
}

-- `acknowledge_evaluation`.
unfoldable pub acknowledge_evaluation : Env → CurrentUser → Exec Case (Unit {0})
acknowledge_evaluation env user = do
  require_module_of_case "employee_result_acknowledgement"
  require_own_record user
  r ← gets (λ c. c.record_)
  raise_if (not (is_finalized r.status)) (http 400 not_finalized)
  raise_if (is_some r.acknowledged_at) (http 400 already_acknowledged)
  modify (put_acknowledged env user)

-- The record with the objection.
unfoldable pub put_objection : Env → CurrentUser → String → Case → Case
put_objection env user reason c = record c {
  record_ = record c.record_ { objection_at = some env.now; objection_reason = some reason };
  db = notify env (active_hr_ids c.db) evaluation_objection_filed (some c.record_.id) (
      log_event env user.id "evaluation_objection_filed" (some c.record_.id) none
        (some (("reason", text reason) ∷ [])) c.db);
}

-- `file_objection`; the window is that of `objection_window_days`.
unfoldable pub file_objection : Env → ℕ → String → CurrentUser → Exec Case (Unit {0})
file_objection env objection_window_days reason user = do
  require_module_of_case "objections"
  require_own_record user
  r ← gets (λ c. c.record_)
  raise_if (not (is_finalized r.status)) (http 400 not_finalized)
  seen_at ← or_raise r.acknowledged_at (http 400 not_acknowledged)
  raise_if (is_some r.objection_at) (http 400 already_objected)
  raise_if (ltb (seen_at + objection_window_days * 86400) env.now) (http 400 objection_too_late)
  modify (put_objection env user reason)

acknowledgement_off : (db : Db) → is_module_enabled db "employee_result_acknowledgement" ≡ false
unfolding is_module_enabled
acknowledgement_off db =
    module_state_locked
      (record { key = "employee_result_acknowledgement"; default_enabled = false; locked = true })
      (stored_state "employee_result_acknowledgement" db.modules) refl

objections_off : (db : Db) → is_module_enabled db "objections" ≡ false
unfolding is_module_enabled
objections_off db =
    module_state_locked (record { key = "objections"; default_enabled = false; locked = true })
      (stored_state "objections" db.modules) refl

-- The switches of these two modules are locked, so that whoever asks, in whatever state and
-- whatever the table of modules holds, neither request is answered.
pub own_answers_refused :
    (env : Env) (days : ℕ) (reason : String) (user : CurrentUser) (c : Case)
    → (is_ok (acknowledge_evaluation env user c) ≡ false)
      × (is_ok (file_objection env days reason user c) ≡ false)
unfolding acknowledge_evaluation file_objection require_module_of_case
own_answers_refused env days reason user c =
    (ground (arith, acknowledgement_off c.db), ground (arith, objections_off c.db))
