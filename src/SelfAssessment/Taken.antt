-- ===== src/SelfAssessment/Taken.antt =====
-- What a form that is submitted goes through.
use mathlib.Core.Path.{subst}
use nafas_hr.Prelude.{
  ◌≡◌, refl, ◌∙◌, ℕ, ◌==◌, false, ◌&&◌, Option, none, some, List, [], ◌∷◌, ◌++◌, map, first,
  Option-cases, Bool-cases, inl, inr, ==-refl, arith, if◌then◌else◌,
}
use nafas_hr.Model.Values.{Env, Result, ok, err}
use nafas_hr.Model.Tables.{
  CurrentUser, Personnel, ContractSelfAssessment, ContractSelfAssessmentScore, NotificationType,
  DedupKey,
}
use nafas_hr.Model.Store.{Db}
use nafas_hr.Audit.{log_event}
use nafas_hr.Notifications.{notify_one}
use nafas_hr.Notifications.Keeps.{notify-keeps}
use nafas_hr.Framework.{ensure_framework, bump, active_member_ids}
use nafas_hr.Cases.Snapshot.{personnel_by_id}
use nafas_hr.Cases.Open.{assessment_for_contract}
use nafas_hr.SelfAssessment.{
  current_assessment, is_submitted_form, take_assessment, new_assessment, add_assessment,
  put_assessment,
}
use nafas_hr.SelfAssessment.Submit.{
  SelfAssessmentSubmit, ids_given, is_incomplete, pin_framework, submit_form, submitted_form,
  store_form, score_row,
}
use nafas_hr.SelfAssessment.Submission.{
  take_assessment-ok, allowed-active, active_ids-same, submit_submitted,
}

-- What the forms and their scores are, apart from the log and the notifications.
abbrev pub Forms : Type 0
Forms = List ContractSelfAssessment × List ContractSelfAssessmentScore

abbrev pub forms : Db → Forms
forms db = (db.assessments, db.assessment_scores)

one_keeps :
    (env : Env) (kind : NotificationType) (r : Option ℕ) (key : Option DedupKey) (id : ℕ) (db : Db)
    → forms (notify_one env kind r key id db) ≡ forms db
unfolding notify_one
one_keeps env kind r key id db = refl

pub store_form-forms :
    (env : Env) (user : CurrentUser) (p : Personnel) (payload : SelfAssessmentSubmit)
    (a : ContractSelfAssessment) (db : Db)
    → forms (store_form env user p payload a db) ≡ (
      (put_assessment a db).assessments,
      map (score_row a.id) payload.scores ++ db.assessment_scores,
    )
unfolding store_form put_assessment log_event
store_form-forms env user p payload a db =
    notify-keeps forms env (λ kind r key id db'. one_keeps env kind r key id db') _ _ none _

-- The form that is written back is the one of its contract.
pub put_assessment-found :
    (a : ContractSelfAssessment) (b : ContractSelfAssessment) (n start : ℕ)
    (rows : List ContractSelfAssessment)
    → a.personnel_id ≡ n
    → a.contract_start_date ≡ start
    → b.id ≡ a.id
    → first (λ c. c.personnel_id == n && c.contract_start_date == start) rows ≡ some b
    → first
        (λ c. c.personnel_id == n && c.contract_start_date == start)
        (map (λ c. if c.id == a.id then a else c) rows)
      ≡ some a
put_assessment-found a b n start [] p s i h = ground arith
put_assessment-found a b n start (c ∷ rows) p s i h =
    ground
      (arith, put_assessment-found a b n start rows p s i, ==-refl n, ==-refl start, ==-refl a.id)

first-keys :
    (n start : ℕ) (rows : List ContractSelfAssessment) {b : ContractSelfAssessment}
    → first (λ c. c.personnel_id == n && c.contract_start_date == start) rows ≡ some b
    → (b.personnel_id ≡ n) × (b.contract_start_date ≡ start)
first-keys n start [] h = ground arith
first-keys n start (c ∷ rows) {b} h = ground (arith, first-keys n start rows {b = b})

-- What is taken is the form of the contract, in the table under its id.
abbrev pub IsTaken : Personnel → Db → ContractSelfAssessment → Db → Type 0
IsTaken p db a db' =
    (b : ContractSelfAssessment) × (current_assessment p db' ≡ some b)
    × (b.id ≡ a.id)
    × (a.personnel_id ≡ p.id)
    × (a.contract_start_date ≡ p.contract_start_date)
    × (db'.assessment_scores ≡ db.assessment_scores)

new-IsTaken :
    (p : Personnel) (n : ℕ) (db : Db)
    → IsTaken p db (new_assessment db p n) (add_assessment (new_assessment db p n) db)
unfolding new_assessment add_assessment current_assessment assessment_for_contract
new-IsTaken p n db = (
  new_assessment db p n,
  ground (arith, ==-refl p.id, ==-refl p.contract_start_date),
  refl,
  refl,
  refl,
  refl,
)

pub ensure_framework-scores :
    (db : Db) → (ensure_framework db).1.assessment_scores ≡ db.assessment_scores
unfolding ensure_framework bump
ensure_framework-scores db = ground arith

pub ensure_framework-assessments : (db : Db) → (ensure_framework db).1.assessments ≡ db.assessments
unfolding ensure_framework bump
ensure_framework-assessments db = ground arith

pub take_assessment-IsTaken :
    (p : Personnel) (preferred : Option ℕ) (db db' : Db) (a : ContractSelfAssessment)
    → take_assessment p preferred db ≡ ok (a, db')
    → IsTaken p db a db'
unfolding take_assessment current_assessment assessment_for_contract
take_assessment-IsTaken p preferred db db' a h = elim (Option-cases (current_assessment p db)) [
  | inr (b, e) ↦
      (let keys = first-keys p.id p.contract_start_date db.assessments (found b e) in
        moved (record b { contract_end_date = p.contract_end_date }) db (ground arith)
          (b, e, refl, keys.0, keys.1, refl))
  | inl e ↦ elim (Option-cases preferred) [
    | inr (n, k) ↦
        (moved (new_assessment db p n) (add_assessment (new_assessment db p n) db) (ground arith)
          (new-IsTaken p n db))
    | inl k ↦
        (let ensured = ensure_framework db in
          let t = new-IsTaken p ensured.0.id ensured.1 in
          moved (new_assessment ensured.1 p ensured.0.id)
            (add_assessment (new_assessment ensured.1 p ensured.0.id) ensured.1) (ground arith)
            (t.0, t.1, t.2, t.3, t.4, t.5 ∙ ensure_framework-scores db))
  ]
]
  where
    moved :
        (c : ContractSelfAssessment) (m : Db)
        → ◌≡◌ {A = Result (ContractSelfAssessment × Db)} (ok (c, m)) (ok (a, db'))
        → IsTaken p db c m
        → IsTaken p db a db'
    moved c m e t = subst (λ r. elim r [ ok (x, y) ↦ IsTaken p db x y | err x ↦ Unit ]) e t

    found :
        (b : ContractSelfAssessment)
        → current_assessment p db ≡ some b
        → first
            (λ c. c.personnel_id == p.id && c.contract_start_date == p.contract_start_date)
            db.assessments
          ≡ some b
    found b e = e

-- What a form that is submitted went through: it was taken, pinned to the framework of today, and
-- stored with its scores, which are for the active indicators.
pub submit_form-inverts :
    (env : Env) (payload : SelfAssessmentSubmit) (user : CurrentUser) (n : ℕ) (preferred : Option ℕ)
    (db db' : Db) (p : Personnel) (a : ContractSelfAssessment)
    → personnel_by_id n db ≡ some p
    → submit_form env payload user n preferred db ≡ ok (a, db')
    → (t : ContractSelfAssessment) × (m : Db) × (take_assessment p preferred db ≡ ok (t, m))
      × (a
          ≡ submitted_form env user payload.note
              (record t { indicator_framework_id = (ensure_framework m).0.id }))
      × (db' ≡ store_form env user p payload a (ensure_framework m).1)
      × (is_incomplete (active_member_ids db) (ids_given payload.scores) ≡ false)
unfolding submit_form pin_framework
submit_form-inverts env payload user n preferred db db' p a e h =
    let t = take_assessment-ok p preferred db in
    elim (Bool-cases (is_submitted_form (current_assessment p db))) [
      | inl k ↦ ground (arith, submit_submitted env payload user n preferred db p e k)
      | inr k ↦
          (let allowed = allowed-active t.0 t.1 (t.3 ∙ k) ∙ active_ids-same db t.1 t.4 in
            (
              t.0,
              t.1,
              t.2,
              ground (arith, t.2, allowed),
              ground (arith, t.2, allowed),
              ground (arith, t.2, allowed),
            ))
    ]
