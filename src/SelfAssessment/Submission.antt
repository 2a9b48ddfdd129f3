-- ===== src/SelfAssessment/Submission.antt =====
-- Which forms can be submitted.
use nafas_hr.Prelude.{
  ◌≡◌, refl, ℕ, Bool, true, false, not, ◌&&◌, Option, some, List, [], ◌∷◌, Option-cases, Bool-cases,
  inl, inr, is_none, is_some, ==_iff, arith,
}
use nafas_hr.Model.Values.{Env, ok, is_ok}
use nafas_hr.Model.Tables.{CurrentUser, Personnel, ContractSelfAssessment}
use nafas_hr.Model.Store.{Db}
use nafas_hr.Framework.{current_framework, ensure_framework, active_member_ids, same_ids, bump}
use nafas_hr.Cases.Snapshot.{personnel_by_id}
use nafas_hr.SelfAssessment.{
  current_assessment, indicator_ids_for_assessment, AssessmentState, state_pending, state_invited,
  is_submitted_form, take_assessment, new_assessment, add_assessment,
}
use nafas_hr.SelfAssessment.Submit.{
  SelfAssessmentInput, SelfAssessmentSubmit, input_fault, ids_given, is_incomplete, submit_form,
}

same_ids-eq : (ms ns : List ℕ) → same_ids ms ns ≡ true → ms ≡ ns
unfolding same_ids
same_ids-eq [] [] h = refl
same_ids-eq [] (n ∷ ns) h = ground arith
same_ids-eq (m ∷ ms) [] h = ground arith
same_ids-eq (m ∷ ms) (n ∷ ns) h = ground (arith, same_ids-eq ms ns, (==_iff m n).0)

-- The framework that is ensured is the newest one, of the indicators that are active.
pub ensure_framework-current :
    (db : Db)
    → (current_framework (ensure_framework db).1 ≡ some (ensure_framework db).0)
      × ((ensure_framework db).0.member_ids ≡ active_member_ids db)
      × ((ensure_framework db).1.indicators ≡ db.indicators)
unfolding ensure_framework current_framework bump active_member_ids
ensure_framework-current db = elim (Option-cases (current_framework db)) [
  | inl e ↦ (ground arith, ground arith, ground arith)
  | inr (f, e) ↦ elim (Bool-cases (same_ids f.member_ids (active_member_ids db))) [
    | inl k ↦ (
      ground arith,
      ground (arith, same_ids-eq f.member_ids (active_member_ids db) k),
      ground arith,
    )
    | inr k ↦ (ground arith, ground arith, ground arith)
  ]
]

-- The assessment of the contract is found or made, and the indicators stay.
pub take_assessment-ok :
    (p : Personnel) (preferred : Option ℕ) (db : Db)
    → (a : ContractSelfAssessment) × (db' : Db) × (take_assessment p preferred db ≡ ok (a, db'))
      × (is_some a.submitted_at ≡ is_submitted_form (current_assessment p db))
      × (db'.indicators ≡ db.indicators)
unfolding take_assessment new_assessment add_assessment
take_assessment-ok p preferred db = elim (Option-cases (current_assessment p db)) [
  | inr (a, e) ↦
      (record a { contract_end_date = p.contract_end_date }, db, ground arith, ground arith, refl)
  | inl e ↦ elim (Option-cases preferred) [
    | inr (n, k) ↦ (
      new_assessment db p n,
      add_assessment (new_assessment db p n) db,
      ground arith,
      ground arith,
      refl,
    )
    | inl k ↦
        (let ensured = ensure_framework db in
          let a = new_assessment ensured.1 p ensured.0.id in
          (
            a,
            add_assessment a ensured.1,
            ground arith,
            ground arith,
            (ensure_framework-current db).2,
          ))
  ]
]

pub active_ids-same :
    (db db' : Db) → db'.indicators ≡ db.indicators → active_member_ids db' ≡ active_member_ids db
unfolding active_member_ids
active_ids-same db db' e = rw e refl

-- A form that is not submitted asks for the indicators that are active.
pub allowed-active :
    (a : ContractSelfAssessment) (db : Db)
    → is_some a.submitted_at ≡ false
    → indicator_ids_for_assessment
        (ensure_framework db).1
        (record a { indicator_framework_id = (ensure_framework db).0.id })
      ≡ active_member_ids db
unfolding indicator_ids_for_assessment
allowed-active a db h = let c = ensure_framework-current db in ground (arith, c.0, c.1)

-- The form can be filled in and sent.
abbrev pub is_waiting : AssessmentState → Bool
is_waiting state_pending = true
is_waiting state_invited = true
is_waiting _ = false

abbrev pub is_full : List ℕ → List SelfAssessmentInput → Bool
is_full allowed items =
    is_none (input_fault allowed [] items) && not (is_incomplete allowed (ids_given items))

pub submit_submitted :
    (env : Env) (payload : SelfAssessmentSubmit) (user : CurrentUser) (n : ℕ) (preferred : Option ℕ)
    (db : Db) (p : Personnel)
    → personnel_by_id n db ≡ some p
    → is_submitted_form (current_assessment p db) ≡ true
    → is_ok (submit_form env payload user n preferred db) ≡ false
unfolding submit_form
submit_submitted env payload user n preferred db p e h = ground arith
