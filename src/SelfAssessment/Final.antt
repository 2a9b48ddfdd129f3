-- ===== src/SelfAssessment/Final.antt =====
-- What submitting a form stores, and that it is done once in a contract.
use nafas_hr.Prelude.{
  ◌≡◌, refl, sym, ap, ◌∙◌, ℕ, ◌==◌, true, false, ◌&&◌, Option, some, List, [], ◌∷◌, ◌++◌, map,
  first, is_some, elem, ==_iff, arith,
}
use nafas_hr.Model.Values.{Env, ok, is_ok}
use nafas_hr.Model.Tables.{CurrentUser, Personnel, ContractSelfAssessment}
use nafas_hr.Model.Store.{Db}
use nafas_hr.Framework.{ensure_framework, active_member_ids}
use nafas_hr.Cases.Snapshot.{personnel_by_id, personnel_by_id-id}
use nafas_hr.Cases.Open.{assessment_for_contract}
use nafas_hr.SelfAssessment.{current_assessment, is_submitted_form, put_assessment}
use nafas_hr.SelfAssessment.Submit.{
  SelfAssessmentSubmit, ids_given, is_incomplete, all_in, submit_form, submitted_form, store_form,
  score_row,
}
use nafas_hr.SelfAssessment.Submission.{submit_submitted}
use nafas_hr.SelfAssessment.Taken.{
  store_form-forms, put_assessment-found, ensure_framework-scores, ensure_framework-assessments,
  take_assessment-IsTaken, submit_form-inverts,
}

all_in-elem : (ms ns : List ℕ) (i : ℕ) → all_in ms ns ≡ true → elem i ms ≡ true → elem i ns ≡ true
all_in-elem [] ns i h k = ground arith
all_in-elem (m ∷ ms) ns i h k =
    ground (arith, all_in-elem ms ns i, ap (λ x. elem x ns), (==_iff i m).0)

complete-elem :
    (allowed seen : List ℕ) (i : ℕ)
    → is_incomplete allowed seen ≡ false
    → elem i seen ≡ elem i allowed
unfolding is_incomplete
complete-elem allowed seen i h =
    ground (arith, all_in-elem allowed seen i, all_in-elem seen allowed i)

store_form-found :
    (env : Env) (user : CurrentUser) (p : Personnel) (payload : SelfAssessmentSubmit)
    (a b : ContractSelfAssessment) (db : Db)
    → a.personnel_id ≡ p.id
    → a.contract_start_date ≡ p.contract_start_date
    → b.id ≡ a.id
    → current_assessment p db ≡ some b
    → current_assessment p (store_form env user p payload a db) ≡ some a
unfolding current_assessment assessment_for_contract put_assessment
store_form-found env user p payload a b db n s i h =
    ap
      (λ f.
        first (λ c. c.personnel_id == p.id && c.contract_start_date == p.contract_start_date) f.0)
      (store_form-forms env user p payload a db)
    ∙ put_assessment-found a b p.id p.contract_start_date db.assessments n s i h

current-same :
    (p : Personnel) (db db' : Db)
    → db'.assessments ≡ db.assessments
    → current_assessment p db' ≡ current_assessment p db
unfolding current_assessment assessment_for_contract
current-same p db db' e = rw e refl

current-later :
    (p p' : Personnel) (db db' : Db)
    → db'.assessments ≡ db.assessments
    → p'.id ≡ p.id
    → p'.contract_start_date ≡ p.contract_start_date
    → current_assessment p' db' ≡ current_assessment p db
unfolding current_assessment assessment_for_contract
current-later p p' db db' e i s = rw (e, i, s) refl

-- A form that is submitted becomes the form of the contract, submitted now, with one row for each
-- score sent before the rows that there were; and the indicators it scores are those that are
-- active. The person is the one of the id.
pub submit_form-stores :
    (env : Env) (payload : SelfAssessmentSubmit) (user : CurrentUser) (n : ℕ) (preferred : Option ℕ)
    (db db' : Db) (p : Personnel) (a : ContractSelfAssessment)
    → personnel_by_id n db ≡ some p
    → submit_form env payload user n preferred db ≡ ok (a, db')
    → (current_assessment p db' ≡ some a)
      × (a.submitted_at ≡ some env.now)
      × (db'.assessment_scores ≡ map (score_row a.id) payload.scores ++ db.assessment_scores)
      × ((i : ℕ) → elem i (ids_given payload.scores) ≡ elem i (active_member_ids db))
unfolding submitted_form
submit_form-stores env payload user n preferred db db' p a e h =
    let i = submit_form-inverts env payload user n preferred db db' p a e h in
    let t = take_assessment-IsTaken p preferred db i.1 i.0 i.2 in
    let m = (ensure_framework i.1).1 in
    (
      ap (current_assessment p) i.4
          ∙ store_form-found env user p payload a t.0 m (ap (λ x. x.personnel_id) i.3 ∙ t.3)
              (ap (λ x. x.contract_start_date) i.3 ∙ t.4) (t.2 ∙ sym (ap (λ x. x.id) i.3))
              (current-same p i.1 m (ensure_framework-assessments i.1) ∙ t.1),
      ap (λ x. x.submitted_at) i.3,
      ap (λ x. x.assessment_scores) i.4
          ∙ ap (λ f. f.1) (store_form-forms env user p payload a m)
          ∙ ap (λ rows. map (score_row a.id) payload.scores ++ rows)
              (ensure_framework-scores i.1 ∙ t.5),
      λ j. complete-elem (active_member_ids db) (ids_given payload.scores) j i.5,
    )

-- A form is submitted once in a contract: after that, in any later tables that hold the same
-- forms and in which the person's contract has the same start, whatever its end is by then, no
-- form of that person is accepted, from whichever account and with whatever scores.
pub submitted_once :
    (env : Env) (payload : SelfAssessmentSubmit) (user : CurrentUser) (n : ℕ) (preferred : Option ℕ)
    (db db' : Db) (p : Personnel) (a : ContractSelfAssessment)
    → personnel_by_id n db ≡ some p
    → submit_form env payload user n preferred db ≡ ok (a, db')
    → (later : Db) (p' : Personnel) → later.assessments ≡ db'.assessments
    → personnel_by_id n later ≡ some p'
    → p'.contract_start_date ≡ p.contract_start_date
    → (env' : Env) (payload' : SelfAssessmentSubmit) (user' : CurrentUser) (preferred' : Option ℕ)
    → is_ok (submit_form env' payload' user' n preferred' later) ≡ false
submitted_once env payload user n preferred db db' p a e h later p' s e' d env' payload' user'
      preferred' =
    let stored = submit_form-stores env payload user n preferred db db' p a e h in
    submit_submitted env' payload' user' n preferred' later p' e' (
      ap is_submitted_form (
        current-later p p' db' later s
          (personnel_by_id-id n later e' ∙ sym (personnel_by_id-id n db e)) d
        ∙ stored.0)
      ∙ ap is_some stored.1)
