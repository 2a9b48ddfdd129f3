-- ===== src/SelfAssessment.antt =====
-- backend/app/services/self_assessment.py and the self-assessments of
-- backend/app/api/routers/me.py: an employee assesses the own work once in a contract. What an
-- endpoint only shows is left out, of its answer the assessment is kept.
pub mod Submit
pub mod Submission
pub mod Taken
pub mod Final
pub mod Own
mod Tests
use nafas_hr.Prelude.{
  ℕ, ◌+◌, ◌==◌, Bool, true, false, not, ◌&&◌, ◌||◌, Option, none, some, List, [], ◌∷◌, ◌++◌, String,
  map, first, select, elem, length, leb, ltb, is_none, is_some, is_just, if◌then◌else◌,
}
use nafas_hr.Model.Enums.{
  UserRole, unit_supervisor, hr, deputy, ceo, employee, support, is_active_personnel,
}
use nafas_hr.Model.Values.{
  Env, num, day, http, Result, ok, err, not_found, forbidden, module_off, no_account_of_person,
  role_not_assessed, contract_not_open, assessment_submitted, foreign_indicator,
  duplicate_indicator, incomplete_scores, Reason,
}
use nafas_hr.Model.Tables.{
  User, CurrentUser, Personnel, IndicatorFramework, ContractSelfAssessment,
  ContractSelfAssessmentScore, self_assessment_invited, self_assessment_submitted,
}
use nafas_hr.Model.Store.{Db}
use nafas_hr.Web.{Exec, pure, raise, raise_if, or_raise, gets, modify, ◌>>=◌, ◌>>◌}
use nafas_hr.Audit.{log_event}
use nafas_hr.Notifications.{notify, active_hr_ids}
use nafas_hr.Modules.{is_module_enabled}
use nafas_hr.Framework.{current_framework, ensure_framework, framework_by_id}
use nafas_hr.Cases.Snapshot.{personnel_by_id}
use nafas_hr.Cases.Open.{assessment_for_contract}

-- `may_self_assess`.
unfoldable pub may_self_assess : UserRole → Bool
may_self_assess ceo = false
may_self_assess deputy = false
may_self_assess support = false
may_self_assess _ = true

-- `separation_date is None or today < separation_date`.
abbrev pub before_leaving : ℕ → Option ℕ → Bool
before_leaving today none = true
before_leaving today (some d) = ltb today d

-- `contract_is_open`.
unfoldable pub contract_is_open : ℕ → Personnel → Bool
contract_is_open today p =
    is_active_personnel p.status
    && ((leb p.contract_start_date today && leb today p.contract_end_date)
        && before_leaving today p.separation_date)

-- The assessment of the person's present contract.
unfoldable pub current_assessment : Personnel → Db → Option ContractSelfAssessment
current_assessment p db = assessment_for_contract db p.id p.contract_start_date

abbrev pub members_of : Option IndicatorFramework → List ℕ
members_of none = []
members_of (some f) = f.member_ids

-- `indicator_ids_for_assessment`.
unfoldable pub indicator_ids_for_assessment : Db → ContractSelfAssessment → List ℕ
indicator_ids_for_assessment db a =
    if is_none a.submitted_at && is_some (current_framework db)
    then members_of (current_framework db)
    else members_of (framework_by_id a.indicator_framework_id db)

-- The texts that `state_of` answers with.
pub data AssessmentState : Type 0 where
  state_no_account state_not_eligible state_closed : AssessmentState
  state_pending state_invited state_submitted : AssessmentState

abbrev pub is_submitted_form : Option ContractSelfAssessment → Bool
is_submitted_form none = false
is_submitted_form (some a) = is_some a.submitted_at

abbrev pub is_invited : Option ContractSelfAssessment → Bool
is_invited none = false
is_invited (some a) = is_some a.invited_at

-- `state_of`.
unfoldable pub state_of : ℕ → Db → Personnel → Option UserRole → AssessmentState
state_of today db p none = state_no_account
state_of today db p (some role) =
    let a = current_assessment p db in
    if not (may_self_assess role)
    then state_not_eligible
    else if is_submitted_form a
    then state_submitted
    else if not (contract_is_open today p)
    then state_closed
    else if is_invited a
    then state_invited
    else state_pending

-- The row of a new assessment.
unfoldable pub new_assessment : Db → Personnel → ℕ → ContractSelfAssessment
new_assessment db p framework_id = record {
  id = db.next_id;
  personnel_id = p.id;
  contract_start_date = p.contract_start_date;
  contract_end_date = p.contract_end_date;
  indicator_framework_id = framework_id;
  submitted_by_user_id = none;
  submitted_at = none;
  note = none;
  invited_at = none;
  invited_by_user_id = none;
}

-- `db.add(assessment)`.
unfoldable pub add_assessment : ContractSelfAssessment → Db → Db
add_assessment a db = record db { assessments = a ∷ db.assessments; next_id = db.next_id + 1 }

-- The row is written back.
unfoldable pub put_assessment : ContractSelfAssessment → Db → Db
put_assessment a db = record db {
  assessments = map (λ b. if b.id == a.id then a else b) db.assessments;
}

-- The assessment of the contract, made where there is none, with the framework given; an extended
-- contract takes the new end over.
unfoldable pub take_assessment : Personnel → Option ℕ → Exec Db ContractSelfAssessment
take_assessment p preferred db = elim (current_assessment p db) [
  | some a ↦ ok (record a { contract_end_date = p.contract_end_date }, db)
  | none ↦ elim preferred [
    | some framework_id ↦ (let a = new_assessment db p framework_id in ok (a, add_assessment a db))
    | none ↦
        (let ensured = ensure_framework db in
          let a = new_assessment ensured.1 p ensured.0.id in ok (a, add_assessment a ensured.1))
  ]
]

-- The active account of the person.
unfoldable pub account_of : ℕ → Db → Option User
account_of personnel_id db =
    first (λ u. is_just personnel_id u.personnel_id && u.is_active) db.users

-- `invite`.
unfoldable pub invite : Env → Personnel → ℕ → Exec Db ContractSelfAssessment
invite env p actor = do
  account ← or_raise (← gets (account_of p.id)) (http 400 no_account_of_person)
  raise_if (not (may_self_assess account.role)) (http 400 role_not_assessed)
  raise_if (not (contract_is_open env.today p)) (http 400 contract_not_open)
  before ← gets (current_assessment p)
  raise_if (is_submitted_form before) (http 400 assessment_submitted)
  taken ← take_assessment p none
  let a : ContractSelfAssessment = record taken {
    invited_at = some env.now;
    invited_by_user_id = some actor;
  }
  modify (put_assessment a)
  modify (notify env (account.id ∷ []) self_assessment_invited none)
  modify (
      log_event env actor
        (if is_invited before then "self_assessment_reminded" else "self_assessment_invited") none
        none
        (some (
          ("personnel_id", num p.id)
          ∷ ("contract_self_assessment_id", num a.id)
          ∷ ("contract_start_date", day p.contract_start_date)
          ∷ ("notified_user_id", num account.id)
          ∷ [])))
  pure a
