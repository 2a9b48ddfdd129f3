-- ===== src/Cases/Open/Unique.antt =====
-- backend/app/api/routers/evaluations.py: one person has at most one open record, and what a record
-- is when it is opened.
use nafas_hr.Prelude.{
  ℕ, ◌+◌, ◌≤◌, ◌≡◌, refl, ap, ◌==◌, false, ◌&&◌, Option, List, [], ◌∷◌, arith, any, if◌then◌else◌,
}
use nafas_hr.Model.Enums.{draft}
use nafas_hr.Model.Values.{Env, ok}
use nafas_hr.Model.Evaluation.{Evaluation}
use nafas_hr.Model.Tables.{CurrentUser, Personnel, EvaluationAccess}
use nafas_hr.Model.Store.{Db}
use nafas_hr.Workflow.Table.{is_open}
use nafas_hr.Audit.{log_event}
use nafas_hr.Framework.{ensure_framework, bump}
use nafas_hr.Cases.Open.{
  create_evaluation, has_open_record, add_record, new_record, framework_for, opening_seat,
}

-- One person has at most one open record.
unfoldable pub open_count : ℕ → List Evaluation → ℕ
open_count personnel_id [] = 0
open_count personnel_id (r ∷ rs) =
    (if r.subject_personnel_id == personnel_id && is_open r.status then 1 else 0)
    + open_count personnel_id rs

unfoldable pub OneOpenEach : Db → Type 0
OneOpenEach db = (personnel_id : ℕ) → open_count personnel_id db.evaluations ≤ 1

-- No open record is counted where none is found.
pub no_open-count :
    (personnel_id : ℕ) (rs : List Evaluation)
    → any (λ r. r.subject_personnel_id == personnel_id && is_open r.status) rs ≡ false
    → open_count personnel_id rs ≡ 0
unfolding open_count
no_open-count personnel_id [] h = refl
no_open-count personnel_id (r ∷ rs) h = ground (arith, no_open-count personnel_id rs)

framework_for-evaluations :
    (p : Personnel) (db : Db) → (framework_for p db).1.evaluations ≡ db.evaluations
unfolding framework_for ensure_framework bump
framework_for-evaluations p db = ground arith

add_record-evaluations :
    (env : Env) (user : CurrentUser) (p : Personnel) (access : EvaluationAccess)
    (supervisor : Option ℕ) (db : Db)
    → (add_record env user p access supervisor db).1.evaluations
      ≡ (add_record env user p access supervisor db).0 ∷ db.evaluations
unfolding add_record log_event new_record
add_record-evaluations env user p access supervisor db =
    ap (λ rs. new_record env (framework_for p db).1 p access supervisor (framework_for p db).0 ∷ rs)
      (framework_for-evaluations p db)

add_record-subject :
    (env : Env) (user : CurrentUser) (p : Personnel) (access : EvaluationAccess)
    (supervisor : Option ℕ) (db : Db)
    → ((add_record env user p access supervisor db).0.subject_personnel_id ≡ p.id)
      × ((add_record env user p access supervisor db).0.status ≡ draft)
unfolding add_record new_record
add_record-subject env user p access supervisor db = (refl, refl)

-- A request that opens a record adds it, where its person had no open record.
pub create_evaluation-adds :
    (env : Env) (subject : ℕ) (user : CurrentUser) (db db' : Db) (r : Evaluation)
    → create_evaluation env subject user db ≡ ok (r, db')
    → (db'.evaluations ≡ r ∷ db.evaluations)
      × (has_open_record r.subject_personnel_id db ≡ false)
      × (r.status ≡ draft)
unfolding create_evaluation opening_seat
create_evaluation-adds env subject user db db' r h =
    grind (arith, add_record-evaluations, add_record-subject)

-- A request that opens a record for a person leaves every person with at most one open record, where
-- that held before.
pub create_evaluation-OneOpenEach :
    (env : Env) (subject : ℕ) (user : CurrentUser) (db db' : Db) (r : Evaluation)
    → OneOpenEach db
    → create_evaluation env subject user db ≡ ok (r, db')
    → OneOpenEach db'
unfolding OneOpenEach open_count has_open_record
create_evaluation-OneOpenEach env subject user db db' r one h personnel_id =
    let a = create_evaluation-adds env subject user db db' r h in
    let counted = no_open-count r.subject_personnel_id db.evaluations a.1 in
    rw a.0 (ground (arith, one personnel_id, counted))
