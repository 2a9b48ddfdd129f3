-- ===== src/SelfAssessment/Submit.antt =====
-- The endpoints of backend/app/api/routers/me.py with which employees open and submit their own
-- assessment, and the guards of backend/app/api/deps.py before them.
use nafas_hr.Prelude.{
  ℕ, ◌==◌, Bool, true, false, not, ◌&&◌, ◌||◌, Option, none, some, List, [], ◌∷◌, ◌++◌, String, map,
  select, elem, length, is_some, if◌then◌else◌,
}
use nafas_hr.Model.Enums.{UserRole, support}
use nafas_hr.Model.Values.{
  Env, num, day, http, ok, err, not_found, forbidden, module_off, role_not_assessed,
  contract_not_open, assessment_submitted, foreign_indicator, duplicate_indicator,
  incomplete_scores, Reason,
}
use nafas_hr.Model.Tables.{
  CurrentUser, Personnel, ContractSelfAssessment, ContractSelfAssessmentScore,
  self_assessment_submitted,
}
use nafas_hr.Model.Store.{Db}
use nafas_hr.Web.{Exec, pure, raise, raise_if, or_raise, gets, modify, ◌>>=◌, ◌>>◌}
use nafas_hr.Audit.{log_event}
use nafas_hr.Notifications.{notify, active_hr_ids}
use nafas_hr.Modules.{is_module_enabled}
use nafas_hr.Framework.{ensure_framework}
use nafas_hr.Cases.Snapshot.{personnel_by_id}
use nafas_hr.SelfAssessment.{
  may_self_assess, contract_is_open, current_assessment, indicator_ids_for_assessment,
  is_submitted_form, put_assessment, take_assessment,
}

-- `require_own_personnel` of backend/app/api/deps.py, with the linked personnel row.
unfoldable pub require_own_personnel : {S : Type 0} → CurrentUser → Exec S ℕ
require_own_personnel user = elim user.role [
  | support ↦ raise (http 403 forbidden)
  | _ ↦ or_raise user.personnel_id (http 403 forbidden)
]

-- `require_module`.
unfoldable pub require_module : String → Exec Db (Unit {0})
require_module key db = raise_if (not (is_module_enabled db key)) (http 403 module_off) db

-- `_ensure_current_assessment`.
unfoldable pub ensure_current_assessment :
    ℕ → Personnel → UserRole → Option ℕ → Exec Db (Option ContractSelfAssessment)
ensure_current_assessment today p role preferred db =
    let found = current_assessment p db in
    if is_some found || (not (may_self_assess role) || not (contract_is_open today p))
    then ok (found, db)
    else elim (take_assessment p preferred db) [ ok (a, db') ↦ ok (some a, db') | err e ↦ err e ]

-- `get_current_self_assessment`.
unfoldable pub get_current_self_assessment :
    Env → CurrentUser → Exec Db (Option ContractSelfAssessment)
get_current_self_assessment env user = do
  id ← require_own_personnel user
  require_module "self_assessment"
  p ← or_raise (← gets (personnel_by_id id)) (http 404 not_found)
  ensure_current_assessment env.today p user.role none

-- `SelfAssessmentInput`.
pub record SelfAssessmentInput : Type 0 where
  pub indicator_id : ℕ
  pub score : ℕ
  pub note : Option String

-- `SelfAssessmentSubmit`.
pub record SelfAssessmentSubmit : Type 0 where
  pub scores : List SelfAssessmentInput
  pub note : Option String

-- What the loop over the scores raises, where `seen` holds the indicators before.
unfoldable pub input_fault : List ℕ → List ℕ → List SelfAssessmentInput → Option Reason
input_fault allowed seen [] = none
input_fault allowed seen (item ∷ items) =
    let rest = input_fault allowed (item.indicator_id ∷ seen) items in
    if not (elem item.indicator_id allowed)
    then some foreign_indicator
    else if elem item.indicator_id seen
    then some duplicate_indicator
    else rest

unfoldable pub ids_given : List SelfAssessmentInput → List ℕ
ids_given items = map (λ i. i.indicator_id) items

abbrev pub all_in : List ℕ → List ℕ → Bool
all_in [] ns = true
all_in (m ∷ ms) ns = elem m ns && all_in ms ns

abbrev pub no_ids : List ℕ → Bool
no_ids [] = true
no_ids (_ ∷ _) = false

-- `not allowed or seen != allowed`, on sets.
unfoldable pub is_incomplete : List ℕ → List ℕ → Bool
is_incomplete allowed seen = no_ids allowed || not (all_in allowed seen && all_in seen allowed)

abbrev pub raise_fault : Option Reason → Exec Db (Unit {0})
raise_fault none db = ok (tt, db)
raise_fault (some reason) db = err (http 400 reason)

unfoldable pub score_row : ℕ → SelfAssessmentInput → ContractSelfAssessmentScore
score_row assessment_id item = record {
  contract_self_assessment_id = assessment_id;
  indicator_id = item.indicator_id;
  score = item.score;
  note = item.note;
}

-- The assessment with the framework of today; an older one is pinned when it is submitted.
unfoldable pub pin_framework : ContractSelfAssessment → Exec Db ContractSelfAssessment
pin_framework a db =
    let ensured = ensure_framework db in
    ok (record a { indicator_framework_id = ensured.0.id }, ensured.1)

-- The form as it is stored when it is submitted.
unfoldable pub submitted_form :
    Env → CurrentUser → Option String → ContractSelfAssessment → ContractSelfAssessment
submitted_form env user note a = record a {
  submitted_at = some env.now;
  submitted_by_user_id = some user.id;
  note = note;
}

-- The scores and the form are written, and human resources told.
unfoldable pub store_form :
    Env → CurrentUser → Personnel → SelfAssessmentSubmit → ContractSelfAssessment → Db → Db
store_form env user p payload a db =
    let written = put_assessment a (record db {
      assessment_scores = map (score_row a.id) payload.scores ++ db.assessment_scores;
    }) in
    let logged =
      log_event env user.id "self_assessment_submitted" none none
        (some (
          ("personnel_id", num p.id)
          ∷ ("contract_self_assessment_id", num a.id)
          ∷ ("contract_start_date", day p.contract_start_date)
          ∷ ("scored_indicators", num (length payload.scores))
          ∷ []))
        written in
    notify env (select (λ id. not (id == user.id)) (active_hr_ids logged)) self_assessment_submitted
      none logged

-- `_submit_current_self_assessment`.
unfoldable pub submit_form :
    Env → SelfAssessmentSubmit → CurrentUser → ℕ → Option ℕ → Exec Db ContractSelfAssessment
submit_form env payload user personnel_id preferred = do
  p ← or_raise (← gets (personnel_by_id personnel_id)) (http 404 not_found)
  raise_if (not (may_self_assess user.role)) (http 403 role_not_assessed)
  raise_if (not (contract_is_open env.today p)) (http 400 contract_not_open)
  raise_if (is_submitted_form (← gets (current_assessment p))) (http 400 assessment_submitted)
  taken ← take_assessment p preferred
  a ← pin_framework taken
  allowed ← gets (λ db. indicator_ids_for_assessment db a)
  raise_fault (input_fault allowed [] payload.scores)
  raise_if (is_incomplete allowed (ids_given payload.scores)) (http 400 incomplete_scores)
  modify (store_form env user p payload (submitted_form env user payload.note a))
  pure (submitted_form env user payload.note a)

-- `submit_current_self_assessment`.
unfoldable pub submit_current_self_assessment :
    Env → SelfAssessmentSubmit → CurrentUser → Exec Db ContractSelfAssessment
submit_current_self_assessment env payload user = do
  id ← require_own_personnel user
  require_module "self_assessment"
  submit_form env payload user id none
