-- ===== src/Framework/Rebinding.antt =====
-- backend/app/services/indicator_framework.py: what `rebind_untouched_open_records` moves.
use nafas_hr.Prelude.{
  ℕ, ◌≡◌, ◌≤◌, ◌==◌, false, ◌&&◌, some, List, [], ◌∷◌, first, select, length, arith, any, Bool,
  true, refl, ◌⊎◌, inl, inr,
}
use nafas_hr.Model.Evaluation.{Evaluation, Score}
use nafas_hr.Model.Tables.{IndicatorFramework, ContractSelfAssessment}
use nafas_hr.Model.Store.{Db}
use nafas_hr.Workflow.Table.{is_open}
use nafas_hr.Framework.{
  is_day, is_untouched, is_rebound, rebind_rows, rebind_untouched_open_records,
  impact_of_membership_change,
}

-- `x` is one of the rows.
abbrev pub IsIn : {A : Type 0} → A → List A → Type 0
IsIn x [] = ⊥
IsIn x (y ∷ ys) = (y ≡ x) ⊎ IsIn x ys

rebind_rows-keeps :
    (db : Db) (f : IndicatorFramework) (id : ℕ) (rs : List Evaluation) {r : Evaluation}
    → first (λ x. x.id == id) rs ≡ some r
    → (is_open r.status && is_untouched db r) ≡ false
    → first (λ x. x.id == id) (rebind_rows db f rs) ≡ some r
unfolding rebind_rows is_rebound
rebind_rows-keeps db f id [] {r} h t = absurd (ground arith)
rebind_rows-keeps db f id (x ∷ xs) {r} h t = ground (arith, rebind_rows-keeps db f id xs {r = r})

rebound-count :
    (db : Db) (f : IndicatorFramework) (rs : List Evaluation)
    → length (select (is_rebound db f) rs)
      ≤ length (select (is_untouched db) (select (λ r. is_open r.status) rs))
unfolding is_rebound
rebound-count db f [] = ground arith
rebound-count db f (r ∷ rs) = ground (arith, rebound-count db f rs)

-- A record has been started, or is closed: one of its scores is saved, the person has a
-- self-assessment for the contract of the record, the record itself has one, or its chain has ended.
pub data IsSettled (db : Db) (r : Evaluation) : Type 0 where
  closed : is_open r.status ≡ false → IsSettled db r
  scored : (s : Score) → IsIn s db.scores → s.evaluation_record_id ≡ r.id → IsSettled db r
  assessed :
      (a : ContractSelfAssessment)
      → IsIn a db.assessments
      → a.personnel_id ≡ r.subject_personnel_id
      → r.subject_contract_start_date ≡ some a.contract_start_date
      → IsSettled db r
  submitted_own : (at : ℕ) → r.self_assessment_submitted_at ≡ some at → IsSettled db r

any-IsIn :
    {A : Type 0} (p : A → Bool) (x : A) (xs : List A) → IsIn x xs → p x ≡ true → any p xs ≡ true
any-IsIn p x [] m h = absurd m
any-IsIn p x (y ∷ ys) (inl e) h = rw e (rw h refl)
any-IsIn p x (y ∷ ys) (inr m) h = ground (arith, any-IsIn p x ys m h)

IsSettled-stays :
    (db : Db) (r : Evaluation) → IsSettled db r → (is_open r.status && is_untouched db r) ≡ false
unfolding is_untouched
IsSettled-stays db r (closed h) = ground arith
IsSettled-stays db r (scored s m h) =
    let found =
      any-IsIn (λ (x : Score). x.evaluation_record_id == r.id) s db.scores m (ground arith) in
    ground (arith, found)
IsSettled-stays db r (assessed a m h k) =
    let found =
      any-IsIn
        (λ (x : ContractSelfAssessment).
          x.personnel_id == r.subject_personnel_id
          && is_day x.contract_start_date r.subject_contract_start_date)
        a db.assessments m (ground arith) in
    ground (arith, found)
IsSettled-stays db r (submitted_own at h) = ground arith

-- Moving the open records to a new version of the questions leaves a record as it is that is closed,
-- has a score, or whose subject has a self-assessment for its contract or in the record itself; and it
-- moves no more records than were announced.
pub rebind_keeps_started :
    (f : IndicatorFramework) (db : Db) (id : ℕ) {r : Evaluation}
    → first (λ x. x.id == id) db.evaluations ≡ some r
    → IsSettled db r
    → (first (λ x. x.id == id) (rebind_untouched_open_records f db).1.evaluations ≡ some r)
      × ((rebind_untouched_open_records f db).0 ≤ (impact_of_membership_change db).1)
unfolding rebind_untouched_open_records impact_of_membership_change
rebind_keeps_started f db id {r} h t = (
  rebind_rows-keeps db f id db.evaluations {r = r} h (IsSettled-stays db r t),
  rebound-count db f db.evaluations,
)
