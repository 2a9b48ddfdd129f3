-- ===== src/SelfAssessment/Tests.antt =====
-- The theorems about self-assessments, on the small company.
use nafas_hr.Prelude.{ℕ, ◌≡◌, refl, ◌++◌, false, none, some, [], ◌∷◌, map, elem}
use nafas_hr.Model.Enums.{employee}
use nafas_hr.Model.Values.{Result, ok, err, is_ok}
use nafas_hr.Model.Tables.{CurrentUser, Personnel, ContractSelfAssessment}
use nafas_hr.Model.Store.{Db}
use nafas_hr.Samples.{monday, company, worker, as_user}
use nafas_hr.Cases.Snapshot.{personnel_by_id}
use nafas_hr.Cases.Open.{assessment_for_contract}
use nafas_hr.Framework.{active_member_ids, current_framework, ensure_framework, same_ids, bump}
use nafas_hr.SelfAssessment.{
  current_assessment, new_assessment, may_self_assess, contract_is_open, take_assessment,
  indicator_ids_for_assessment, add_assessment,
}
use nafas_hr.SelfAssessment.Submit.{
  SelfAssessmentSubmit, submit_form, score_row, ids_given, pin_framework, input_fault,
  is_incomplete,
}
use nafas_hr.SelfAssessment.Final.{submit_form-stores, submitted_once}

-- The worker's own account, and a form for the one indicator.
abbrev own_user : CurrentUser
own_user = record (as_user 6 employee) { personnel_id = some 1 }

abbrev form : SelfAssessmentSubmit
form = record {
  scores = record { indicator_id = 11; score = 4; note = none } ∷ [];
  note = some "Busy";
}

abbrev run : Result (ContractSelfAssessment × Db)
run = submit_form monday form own_user 1 none (company [])

abbrev form_of : Result (ContractSelfAssessment × Db) → ContractSelfAssessment
form_of (ok (a, db)) = a
form_of (err e) = new_assessment (company []) worker 0

abbrev db_of : Result (ContractSelfAssessment × Db) → Db
db_of (ok (a, db)) = db
db_of (err e) = company []

form_goes_through : run ≡ ok (form_of run, db_of run)
unfolding submit_form personnel_by_id may_self_assess contract_is_open current_assessment
    assessment_for_contract take_assessment pin_framework input_fault indicator_ids_for_assessment
    new_assessment current_framework ensure_framework add_assessment active_member_ids is_incomplete
    ids_given same_ids bump
form_goes_through = refl

stores_example :
    (current_assessment worker (db_of run) ≡ some (form_of run))
    × ((form_of run).submitted_at ≡ some 1000)
    × ((db_of run).assessment_scores ≡ map (score_row (form_of run).id) form.scores ++ [])
    × ((i : ℕ) → elem i (ids_given form.scores) ≡ elem i (active_member_ids (company [])))
unfolding personnel_by_id
stores_example =
    submit_form-stores monday form own_user 1 none (company []) (db_of run) worker (form_of run)
      refl form_goes_through

-- The contract is extended by then.
abbrev extended_worker : Personnel
extended_worker = record worker { contract_end_date = 800 }

abbrev later_db : Db
later_db = record (db_of run) { personnel = extended_worker ∷ [] }

submitted_once_example :
    is_ok (submit_form (record monday { today = 500 }) form own_user 1 none later_db) ≡ false
unfolding personnel_by_id
submitted_once_example =
    submitted_once monday form own_user 1 none (company []) (db_of run) worker (form_of run) refl
      form_goes_through later_db extended_worker refl refl refl (record monday { today = 500 }) form
      own_user none
