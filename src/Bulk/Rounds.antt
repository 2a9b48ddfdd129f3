-- ===== src/Bulk/Rounds.antt =====
-- backend/app/services/bulk_evaluation.py: the rounds of the loop of `execute`.
use nafas_hr.Prelude.{◌≡◌, refl, ℕ, some, List, ◌∷◌, Option-cases, inl, inr, arith}
use nafas_hr.Model.Values.{Env, Result, ok, err}
use nafas_hr.Model.Tables.{Personnel, EvaluationAccess, IndicatorFramework}
use nafas_hr.Model.Store.{Db}
use nafas_hr.Framework.{ensure_framework, bump}
use nafas_hr.Cases.Open.{access_of}
use nafas_hr.Cases.Snapshot.{personnel_by_id}
use nafas_hr.Bulk.{
  PersonPlan, Batch, batch_record, insert_record, open_planned, execute_one, execute_all,
  batch_framework,
}

-- What the round of a person does when it ends: it inserts the row of that person.
pub open_planned-inserts :
    (env : Env) (batch : Batch) (person_plan done : PersonPlan) (db db' : Db)
    → open_planned env batch person_plan db ≡ ok (done, db')
    → (access : EvaluationAccess) × (p : Personnel) × (f : IndicatorFramework) × (access_of
          person_plan.personnel_id batch.loaded
        ≡ some access)
      × (personnel_by_id person_plan.personnel_id batch.loaded ≡ some p)
      × (batch_framework batch p db ≡ some f)
      × (insert_record person_plan
            (batch_record env batch person_plan.manager_path p access f db)
            db
          ≡ (done, db'))
unfolding open_planned
open_planned-inserts env batch person_plan done db db' h =
    elim (Option-cases (access_of person_plan.personnel_id batch.loaded)) [
      | inl e ↦ ground arith
      | inr (access, e) ↦
          elim (Option-cases (personnel_by_id person_plan.personnel_id batch.loaded)) [
            | inl k ↦ ground arith
            | inr (p, k) ↦ elim (Option-cases (batch_framework batch p db)) [
              | inl l ↦ ground arith
              | inr (f, l) ↦ (access, p, f, e, k, l, ground arith)
            ]
          ]
    ]

abbrev pub FirstRound :
    Env → Batch → (ℕ → Db → Db) → PersonPlan → List PersonPlan → List PersonPlan → Db → Db → Type 0
FirstRound env batch elsewhere p ps done db db' =
    (d : PersonPlan) × (middle : Db) × (ds : List PersonPlan) × (execute_one env batch p
        (elsewhere p.personnel_id db)
      ≡ ok (d, middle))
    × (execute_all env batch elsewhere ps middle ≡ ok (ds, db'))
    × (done ≡ d ∷ ds)

-- The loop over a list that is not empty: its first round, and the rest.
pub execute_all-cons :
    (env : Env) (batch : Batch) (elsewhere : ℕ → Db → Db)
    → (p : PersonPlan) (ps done : List PersonPlan) (db db' : Db)
    → execute_all env batch elsewhere (p ∷ ps) db ≡ ok (done, db')
    → FirstRound env batch elsewhere p ps done db db'
unfolding execute_all
execute_all-cons env batch elsewhere p ps done db db' h =
    go (execute_one env batch p (elsewhere p.personnel_id db)) refl
  where
    rest_of :
        (d : PersonPlan) (middle : Db)
        → execute_one env batch p (elsewhere p.personnel_id db) ≡ ok (d, middle)
        → (r : Result (List PersonPlan × Db)) → execute_all env batch elsewhere ps middle ≡ r
        → FirstRound env batch elsewhere p ps done db db'
    rest_of d middle e (ok (ds, last)) k = (d, middle, ds, e, ground arith, ground arith)
    rest_of d middle e (err x) k = ground arith

    go :
        (r : Result (PersonPlan × Db))
        → execute_one env batch p (elsewhere p.personnel_id db) ≡ r
        → FirstRound env batch elsewhere p ps done db db'
    go (ok (d, middle)) e = rest_of d middle e (execute_all env batch elsewhere ps middle) refl
    go (err x) e = ground arith

pub ensure_framework-evaluations : (db : Db) → (ensure_framework db).1.evaluations ≡ db.evaluations
unfolding ensure_framework bump
ensure_framework-evaluations db = ground arith
