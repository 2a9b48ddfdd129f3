-- ===== src/Cases/Owners.antt =====
-- backend/app/api/routers/evaluations.py: what human resources do about a record beside moving it
-- along: extend-submission, hr-claim, hr-handover, resolve-objection and reassign.
pub mod Rules
use nafas_hr.Prelude.{
  ℕ, ◌==◌, Bool, true, false, ◌&&◌, ◌||◌, not, Option, none, some, List, [], ◌∷◌, first, is_none,
  is_some, is_just, or_else, String, if◌then◌else◌,
}
use nafas_hr.Model.Enums.{
  UserRole, unit_supervisor, hr, deputy, ceo, employee, support, is_hr, is_draft, hr_review,
}
use nafas_hr.Model.Values.{
  Env, Json, null, num, day, text, flag, http, forbidden, not_extendable, not_open, already_owned,
  invalid_owner, evaluator_is_subject, no_objection, objection_resolved, no_such_stage,
  invalid_user, wrong_role, Result, ok, err,
}
use nafas_hr.Model.Evaluation.{Evaluation, extended, handed_over, reassigned}
use nafas_hr.Model.Tables.{
  User, CurrentUser, submission_window_extended, evaluation_objection_resolved,
}
use nafas_hr.Model.Store.{Db, Case}
use nafas_hr.Web.{Exec, raise, raise_if, or_raise, modify, gets, ◌>>=◌, ◌>>◌}
use nafas_hr.Audit.{log_event}
use nafas_hr.Notifications.{notify, listed, subject_account_ids, notify_stage_owner_reassigned}
use nafas_hr.Guards.{ensure_evaluators_are_not_the_subject, ensure_chain_stages_are_not_redundant}
use nafas_hr.Workflow.Table.{
  SeatField, unit_supervisor_user_id, deputy_user_id, ceo_user_id, seat, is_open,
}
use nafas_hr.Workflow.Apply.{set_seat, seat_key}
use nafas_hr.Cases.Chain.{require_hr, ensure_not_about_oneself, add_top_comment}
use nafas_hr.Cases.Scores.{text_json, num_json}

unfoldable pub user_by_id : ℕ → Db → Option User
user_by_id id db = first (λ u. u.id == id) db.users

abbrev date_json : Option ℕ → Json
date_json none = null
date_json (some d) = day d

-- The columns of an extension.
unfoldable pub put_extension : Env → ℕ → String → CurrentUser → Evaluation → Evaluation
put_extension env until reason user r = record r {
  submission_extended_until = some until;
  submission_extended_at = some env.now;
  submission_extended_by_user_id = some user.id;
  submission_extension_reason = some reason;
}

store_extension : Env → ℕ → String → CurrentUser → Case → Case
store_extension env until reason user c =
    let r = put_extension env until reason user c.record_ in
    let commented =
      add_top_comment user hr_review (extended until reason) (record c { record_ = r }) in
    record commented {
      db =
          notify env (listed (or_else r.unit_supervisor_user_id r.deputy_user_id))
            submission_window_extended (some r.id)
            (log_event env user.id "submission_window_extended" (some r.id)
              (some (("until", date_json c.record_.submission_extended_until) ∷ []))
              (some (("until", day until) ∷ ("reason", text reason) ∷ [])) commented.db);
    }

-- `extend_submission_window`; `_EXTENDABLE_STATUSES` holds the draft alone.
unfoldable pub extend_submission_window : Env → ℕ → String → CurrentUser → Exec Case (Unit {0})
unfolding store_extension
extend_submission_window env until reason user = do
  require_hr user
  ensure_not_about_oneself user
  raise_if (not (← gets (λ c. is_draft c.record_.status))) (http 400 not_extendable)
  modify (store_extension env until reason user)

take_case : Env → CurrentUser → Case → Case
take_case env user c = record {
  record_ = record c.record_ { hr_user_id = some user.id };
  db =
      log_event env user.id "hr_case_claimed" (some c.record_.id) none
        (some (("hr_user_id", num user.id) ∷ ("implicit", flag false) ∷ [])) c.db;
}

-- `hr_claim`.
unfoldable pub hr_claim : Env → CurrentUser → Exec Case (Unit {0})
unfolding take_case
hr_claim env user = do
  require_hr user
  ensure_not_about_oneself user
  raise_if (not (← gets (λ c. is_open c.record_.status))) (http 400 not_open)
  raise_if (← gets (λ c. is_some c.record_.hr_user_id)) (http 409 already_owned)
  modify (take_case env user)

-- A user to whom a case may be handed: one of human resources, with a live account.
unfoldable pub may_own : Option User → Option User
may_own none = none
may_own (some u) = if not u.is_active || not (is_hr u.role) then none else some u

hand_over : Env → User → String → CurrentUser → Case → Case
hand_over env owner reason user c =
    let r = record c.record_ { hr_user_id = some owner.id } in
    let commented =
      add_top_comment user hr_review (handed_over reason) (record c { record_ = r }) in
    record commented {
      db = notify_stage_owner_reassigned env r owner.id (
          log_event env user.id "hr_case_handed_over" (some r.id)
            (some (("hr_user_id", num_json c.record_.hr_user_id) ∷ []))
            (some (("hr_user_id", num owner.id) ∷ ("reason", text reason) ∷ [])) commented.db);
    }

-- `hr_handover`.
unfoldable pub hr_handover : Env → ℕ → String → CurrentUser → Exec Case (Unit {0})
unfolding hand_over
hr_handover env new_hr_user_id reason user = do
  require_hr user
  ensure_not_about_oneself user
  raise_if (not (← gets (λ c. is_open c.record_.status))) (http 400 not_open)
  found ← gets (λ c. user_by_id new_hr_user_id c.db)
  owner ← or_raise (may_own found) (http 400 invalid_owner)
  raise_if (← gets (λ c. is_just owner.id c.record_.hr_user_id)) (http 400 already_owned)
  raise_if (← gets (λ c. is_just c.record_.subject_personnel_id owner.personnel_id))
      (http 400 evaluator_is_subject)
  modify (hand_over env owner reason user)

unfoldable pub put_resolution : Env → String → CurrentUser → Evaluation → Evaluation
put_resolution env resolution user r = record r {
  objection_resolved_at = some env.now;
  objection_resolution = some resolution;
  objection_resolved_by_user_id = some user.id;
}

store_resolution : Env → String → CurrentUser → Case → Case
store_resolution env resolution user c =
    let r = put_resolution env resolution user c.record_ in
    record {
      record_ = r;
      db = notify env (subject_account_ids r c.db) evaluation_objection_resolved (some r.id) (
          log_event env user.id "evaluation_objection_resolved" (some r.id)
            (some (("objection_reason", text_json r.objection_reason) ∷ []))
            (some (("resolution", text resolution) ∷ [])) c.db);
    }

-- `resolve_objection`.
unfoldable pub resolve_objection : Env → String → CurrentUser → Exec Case (Unit {0})
unfolding store_resolution
resolve_objection env resolution user = do
  require_hr user
  ensure_not_about_oneself user
  raise_if (← gets (λ c. is_none c.record_.objection_at)) (http 400 no_objection)
  raise_if (← gets (λ c. is_some c.record_.objection_resolved_at)) (http 400 objection_resolved)
  modify (store_resolution env resolution user)

-- The keys of `_REASSIGNABLE_STAGES`.
pub data StageField : Type 0 where
  supervisor_stage deputy_stage ceo_stage : StageField

unfoldable pub field_of : StageField → SeatField
field_of supervisor_stage = unit_supervisor_user_id
field_of deputy_stage = deputy_user_id
field_of ceo_stage = ceo_user_id

-- The role and the label of `_REASSIGNABLE_STAGES`; the label stands here in English.
unfoldable pub expected_role : StageField → UserRole
expected_role supervisor_stage = unit_supervisor
expected_role deputy_stage = deputy
expected_role ceo_stage = ceo

unfoldable pub stage_label : StageField → String
stage_label supervisor_stage = "unit supervisor"
stage_label deputy_stage = "deputy"
stage_label ceo_stage = "chief executive"

-- `user.role == role`.
unfoldable pub same_role : UserRole → UserRole → Bool
same_role unit_supervisor unit_supervisor = true
same_role hr hr = true
same_role deputy deputy = true
same_role ceo ceo = true
same_role employee employee = true
same_role support support = true
same_role _ _ = false

unfoldable pub live_user : Option User → Option User
live_user none = none
live_user (some u) = if u.is_active then some u else none

seat_json : Evaluation → StageField → Json
unfolding field_of seat
seat_json r field = num_json (seat (field_of field) r)

reassign : Env → StageField → ℕ → User → String → CurrentUser → Case → Case
unfolding field_of
reassign env field new_user_id owner reason user c =
    let r = set_seat (field_of field) new_user_id c.record_ in
    let commented =
      add_top_comment user hr_review (reassigned (stage_label field) reason)
        (record c { record_ = r }) in
    record commented {
      db = notify_stage_owner_reassigned env r owner.id (
          log_event env user.id "stage_owner_reassigned" (some r.id)
            (some ((seat_key (field_of field), seat_json c.record_ field) ∷ []))
            (some ((seat_key (field_of field), num new_user_id) ∷ ("reason", text reason) ∷ []))
            commented.db);
    }

-- The chain with the new user on the seat has no two stages that could be one.
ensure_distinct_stages : StageField → ℕ → Exec Case (Unit {0})
unfolding field_of
ensure_distinct_stages field new_user_id c =
    let r = set_seat (field_of field) new_user_id c.record_ in
    ensure_chain_stages_are_not_redundant r.unit_supervisor_user_id r.deputy_user_id
      (some r.ceo_user_id) c

ensure_not_the_subject : ℕ → Exec Case (Unit {0})
ensure_not_the_subject new_user_id c =
    ensure_evaluators_are_not_the_subject c.db c.record_.subject_personnel_id
      (some new_user_id ∷ []) c

-- `reassign_stage_owner`.
unfoldable pub reassign_stage_owner :
    Env → StageField → ℕ → String → CurrentUser → Exec Case (Unit {0})
unfolding field_of seat_json reassign ensure_distinct_stages ensure_not_the_subject
reassign_stage_owner env field new_user_id reason user = do
  require_hr user
  raise_if (not (← gets (λ c. is_open c.record_.status))) (http 400 not_open)
  raise_if (← gets (λ c. is_none (seat (field_of field) c.record_))) (http 400 no_such_stage)
  found ← gets (λ c. live_user (user_by_id new_user_id c.db))
  owner ← or_raise found (http 400 invalid_user)
  raise_if (not (same_role owner.role (expected_role field))) (http 400 wrong_role)
  ensure_not_the_subject new_user_id
  ensure_distinct_stages field new_user_id
  modify (reassign env field new_user_id owner reason user)
