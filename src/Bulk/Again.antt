-- ===== src/Bulk/Again.antt =====
-- A second run for the same cohort opens nothing.
use mathlib.Core.Path.{subst}
use nafas_hr.Prelude.{
  ◌≡◌, refl, sym, ap, ◌∙◌, ℕ, ◌==◌, Bool, true, false, ◌&&◌, none, List, [], ◌∷◌, map, select, any,
  first, All, Option-cases, Bool-cases, inl, inr, ==-refl, arith,
}
use nafas_hr.Model.Values.{Env, ok}
use nafas_hr.Model.Enums.{draft, is_active_personnel}
use nafas_hr.Model.Evaluation.{Evaluation}
use nafas_hr.Model.Tables.{User, Personnel, EvaluationAccess, IndicatorFramework}
use nafas_hr.Model.Store.{Db}
use nafas_hr.Workflow.Table.{is_open}
use nafas_hr.Guards.{inactive_seat_labels, is_dead}
use nafas_hr.Framework.{ensure_framework, bump}
use nafas_hr.Cases.Open.{access_of, has_open_record, new_record}
use nafas_hr.Cases.Snapshot.{personnel_by_id-id}
use nafas_hr.Bulk.{
  PersonPlan, Batch, CohortFilter, batch_record, insert_record, execute_one, execute_all, execute,
  is_created, plan, plan_one, plan_person, plan_access, load_cohort, open_record_of, in_cohort,
}
use nafas_hr.Bulk.Rounds.{open_planned-inserts, execute_all-cons}
use nafas_hr.Bulk.Promise.{undisturbed, found_none, batch_record-subject, plan_person-id}

-- The tables that a plan reads beside the records.
abbrev read : Db → List User × List Personnel × List EvaluationAccess
read db = (db.users, db.personnel, db.accesses)

-- The records have only become more.
abbrev Grown : Db → Db → Type 0
Grown db db' =
    (read db' ≡ read db) × ((n : ℕ) → has_open_record n db ≡ true → has_open_record n db' ≡ true)

insert_record-Grown :
    (p : PersonPlan) (r : Evaluation) (db : Db)
    → r.status ≡ draft
    → Grown db (insert_record p r db).1
      × (has_open_record r.subject_personnel_id (insert_record p r db).1 ≡ true)
unfolding insert_record has_open_record
insert_record-Grown p r db s =
    ((ground arith, λ n h. ground arith), ground (arith, ==-refl r.subject_personnel_id))

batch_record-draft :
    (env : Env) (batch : Batch) (path : Bool) (p : Personnel) (a : EvaluationAccess)
    (f : IndicatorFramework) (db : Db)
    → (batch_record env batch path p a f db).status ≡ draft
unfolding batch_record new_record
batch_record-draft env batch path p a f db = refl

-- A round, for a person who is to get a record and for one who is not.
execute_one-Grown :
    (env : Env) (batch : Batch) (p d : PersonPlan) (db db' : Db)
    → execute_one env batch p db ≡ ok (d, db')
    → Grown db db' × (is_created p.outcome ≡ true → has_open_record p.personnel_id db' ≡ true)
unfolding execute_one
execute_one-Grown env batch p d db db' h = elim (Bool-cases (is_created p.outcome)) [
  | inl c ↦
      (let i = open_planned-inserts env batch p d db db' (ground arith) in
        let r = batch_record env batch p.manager_path i.1 i.0 i.2 db in
        let s =
          batch_record-subject env batch p.manager_path i.1 i.0 i.2 db
          ∙ personnel_by_id-id p.personnel_id batch.loaded i.4 in
        let g =
          insert_record-Grown p r db (batch_record-draft env batch p.manager_path i.1 i.0 i.2 db) in
        let e = ap (λ x. x.1) i.6 in
        (
          subst (Grown db) e g.0,
          λ k.
              subst (λ n. has_open_record n db' ≡ true) s
                (subst (λ t. has_open_record r.subject_personnel_id t ≡ true) e g.1),
        ))
  | inr c ↦
      (let e : db ≡ db' = ground arith in (subst (Grown db) e (refl, λ n k. k), λ k. ground arith))
]

Grown-trans : (a b c : Db) → Grown a b → Grown b c → Grown a c
Grown-trans a b c f g = (g.0 ∙ f.0, λ n h. g.1 n (f.1 n h))

execute_all-Grown :
    (env : Env) (batch : Batch) (plans done : List PersonPlan) (db db' : Db)
    → execute_all env batch undisturbed plans db ≡ ok (done, db')
    → Grown db db'
      × All (λ p. is_created p.outcome ≡ true → has_open_record p.personnel_id db' ≡ true) plans
unfolding execute_all
execute_all-Grown env batch [] done db db' h =
    (subst (Grown db) (ground arith) (refl, λ n k. k), tt)
execute_all-Grown env batch (p ∷ ps) done db db' h =
    let c = execute_all-cons env batch undisturbed p ps done db db' h in
    let one = execute_one-Grown env batch p c.0 db c.1 c.3 in
    let rest = execute_all-Grown env batch ps c.2 c.1 db' c.4 in
    (Grown-trans db c.1 db' one.0 rest.0, (λ k. rest.0.1 p.personnel_id (one.1 k), rest.1))

plan_access-read :
    (db db' : Db) (p : Personnel) (a : EvaluationAccess)
    → read db' ≡ read db
    → plan_access db' p a ≡ plan_access db p a
unfolding plan_access inactive_seat_labels is_dead
plan_access-read db db' p a e = rw (ap (λ x. x.0) e) refl

opened-not_created :
    (p : Personnel) (db : Db)
    → has_open_record p.id db ≡ true
    → is_created (plan_person db p).outcome ≡ false
unfolding plan_one open_record_of has_open_record
opened-not_created p db h =
    ground
      (arith, found_none (λ r. r.subject_personnel_id == p.id && is_open r.status) db.evaluations)

none_found :
    (test : Evaluation → Bool) (rs : List Evaluation) → any test rs ≡ false → first test rs ≡ none
none_found test [] h = refl
none_found test (r ∷ rs) h = ground (arith, none_found test rs)

not_open-none : (n : ℕ) (db : Db) → has_open_record n db ≡ false → open_record_of n db ≡ none
unfolding has_open_record open_record_of
not_open-none n db h =
    none_found (λ r. r.subject_personnel_id == n && is_open r.status) db.evaluations h

access_of-read : (n : ℕ) (db db' : Db) → read db' ≡ read db → access_of n db' ≡ access_of n db
unfolding access_of
access_of-read n db db' e = rw (ap (λ x. x.2) e) refl

closed_plan :
    (p : Personnel) (db db' : Db)
    → read db' ≡ read db
    → has_open_record p.id db ≡ false
    → has_open_record p.id db' ≡ false
    → plan_person db' p ≡ plan_person db p
unfolding plan_one
closed_plan p db db' e h h' =
    rw (not_open-none p.id db h, not_open-none p.id db' h', access_of-read p.id db db' e)
      (elim (Bool-cases (is_active_personnel p.status)) [
        | inl a ↦ elim (Option-cases (access_of p.id db)) [
          | inl n ↦ rw (a, n) refl
          | inr (access, n) ↦ rw (a, n) (plan_access-read db db' p access e)
        ]
        | inr a ↦ rw a refl
      ])

-- A person who is not to get a record by the tables before, or has one by now, gets none later.
plan_again :
    (p : Personnel) (db db' : Db)
    → Grown db db'
    → (is_created (plan_person db p).outcome ≡ true → has_open_record p.id db' ≡ true)
    → is_created (plan_person db' p).outcome ≡ false
plan_again p db db' g h = elim (Bool-cases (has_open_record p.id db')) [
  | inl o ↦ opened-not_created p db' o
  | inr n ↦ elim (Bool-cases (has_open_record p.id db)) [
    | inl o ↦ ground (arith, g.1 p.id o)
    | inr m ↦ rw (closed_plan p db db' g.0 m n) (ground arith)
  ]
]

plans_again :
    (ps : List Personnel) (db db' : Db)
    → Grown db db'
    → All
        (λ p. is_created p.outcome ≡ true → has_open_record p.personnel_id db' ≡ true)
        (map (plan_person db) ps)
    → All (λ p. is_created p.outcome ≡ false) (map (plan_person db') ps)
plans_again [] db db' g h = tt
plans_again (p ∷ ps) db db' g h = (
  plan_again p db db' g (
      subst (λ n. is_created (plan_person db p).outcome ≡ true → has_open_record n db' ≡ true)
        (plan_person-id p db) h.0),
  plans_again ps db db' g h.1,
)

ensure_framework-Grown : (db : Db) → Grown db (ensure_framework db).1
unfolding ensure_framework bump has_open_record
ensure_framework-Grown db = (ground arith, λ n h. ground arith)

-- The run can be repeated: after a run that answers, where no other request commits in between, the
-- plan for the same cohort opens a record for nobody.
pub run_again_opens_none :
    (env : Env) (cohort : CohortFilter) (done : List PersonPlan) (db db' : Db)
    → execute env undisturbed cohort db ≡ ok (done, db')
    → All (λ p. is_created p.outcome ≡ false) (plan cohort db')
unfolding execute plan load_cohort
run_again_opens_none env cohort done db db' h =
    let g = execute_all-Grown env _ _ done (ensure_framework db).1 db' h in
    let grown = Grown-trans db (ensure_framework db).1 db' (ensure_framework-Grown db) g.0 in
    subst
      (λ ps.
        All (λ p. is_created p.outcome ≡ false)
          (map (plan_person db') (select (in_cohort cohort) ps)))
      (sym (ap (λ x. x.1) grown.0))
      (plans_again (select (in_cohort cohort) db.personnel) db db' grown g.1)
