-- ===== src/Bulk/Promise.antt =====
-- The preview promises what the run then does.
use mathlib.Core.Path.{subst}
use nafas_hr.Prelude.{
  ◌≡◌, refl, sym, ap, ◌∙◌, ℕ, ◌==◌, Bool, true, false, ◌&&◌, none, List, [], ◌∷◌, map, select, any,
  first, All, Bool-cases, inl, inr, arith,
}
use nafas_hr.Model.Values.{Env, ok}
use nafas_hr.Model.Evaluation.{Evaluation}
use nafas_hr.Model.Tables.{Personnel, EvaluationAccess, IndicatorFramework}
use nafas_hr.Model.Store.{Db}
use nafas_hr.Workflow.Table.{is_open}
use nafas_hr.Framework.{ensure_framework}
use nafas_hr.Cases.Open.{has_open_record, new_record}
use nafas_hr.Cases.Snapshot.{personnel_by_id-id}
use nafas_hr.Bulk.{
  PersonPlan, BulkOutcome, Batch, CohortFilter, batch_record, insert_record, execute_one,
  execute_all, execute, is_created, plan, plan_one, plan_person, plan_access, load_cohort,
  open_record_of, in_cohort,
}
use nafas_hr.Bulk.Rounds.{open_planned-inserts, execute_all-cons, ensure_framework-evaluations}

-- No other request commits between the rounds.
abbrev pub undisturbed : ℕ → Db → Db
undisturbed n db = db

-- The ids of the personnel are distinct.
abbrev pub OnePerId : List Personnel → Type 0
OnePerId [] = Unit
OnePerId (p ∷ ps) = All (λ q. (p.id == q.id) ≡ false) ps × OnePerId ps

-- Whoever is to get a record has none that is open, and the plans are about distinct people.
abbrev Ready : List PersonPlan → Db → Type 0
Ready [] db = Unit
Ready (p ∷ ps) db =
    (is_created p.outcome ≡ true → has_open_record p.personnel_id db ≡ false)
    × All (λ q. (p.personnel_id == q.personnel_id) ≡ false) ps
    × Ready ps db

pub batch_record-subject :
    (env : Env) (batch : Batch) (path : Bool) (p : Personnel) (a : EvaluationAccess)
    (f : IndicatorFramework) (db : Db)
    → (batch_record env batch path p a f db).subject_personnel_id ≡ p.id
unfolding batch_record new_record
batch_record-subject env batch path p a f db = refl

-- The insertion goes through where the person has no open record, and leaves the others without.
insert_record-others :
    (person_plan : PersonPlan) (r : Evaluation) (db : Db)
    → has_open_record r.subject_personnel_id db ≡ false
    → (((insert_record person_plan r db).0.outcome ≡ person_plan.outcome)
        × ((insert_record person_plan r db).1.evaluations ≡ r ∷ db.evaluations))
unfolding insert_record has_open_record
insert_record-others person_plan r db h = ground arith

open_record-cons :
    (n : ℕ) (r : Evaluation) (db db' : Db)
    → db'.evaluations ≡ r ∷ db.evaluations
    → (r.subject_personnel_id == n) ≡ false
    → has_open_record n db' ≡ has_open_record n db
unfolding has_open_record
open_record-cons n r db db' e d = rw e (ground arith)

Ready-same :
    (ps : List PersonPlan) (db db' : Db) (r : Evaluation) (n : ℕ)
    → r.subject_personnel_id ≡ n
    → db'.evaluations ≡ r ∷ db.evaluations
    → All (λ q. (n == q.personnel_id) ≡ false) ps
    → Ready ps db
    → Ready ps db'
Ready-same [] db db' r n s e d ready = tt
Ready-same (p ∷ ps) db db' r n s e d ready = (
  λ c.
      open_record-cons p.personnel_id r db db' e (ap (λ m. m == p.personnel_id) s ∙ d.0)
      ∙ ready.0 c,
  ready.1,
  Ready-same ps db db' r n s e d.1 ready.2,
)

-- One round keeps the outcome, and leaves the rest ready.
execute_one-Ready :
    (env : Env) (batch : Batch) (p d : PersonPlan) (ps : List PersonPlan) (db db' : Db)
    → Ready (p ∷ ps) db
    → execute_one env batch p db ≡ ok (d, db')
    → (d.outcome ≡ p.outcome) × Ready ps db'
unfolding execute_one
execute_one-Ready env batch p d ps db db' ready h = elim (Bool-cases (is_created p.outcome)) [
  | inl c ↦
      (let i = open_planned-inserts env batch p d db db' (ground arith) in
        let r = batch_record env batch p.manager_path i.1 i.0 i.2 db in
        let s =
          batch_record-subject env batch p.manager_path i.1 i.0 i.2 db
          ∙ personnel_by_id-id p.personnel_id batch.loaded i.4 in
        let inserted = insert_record-others p r db (ap (λ n. has_open_record n db) s ∙ ready.0 c) in
        (
          sym (ap (λ x. x.0.outcome) i.6) ∙ inserted.0,
          Ready-same ps db db' r p.personnel_id s (sym (ap (λ x. x.1.evaluations) i.6) ∙ inserted.1)
              ready.1 ready.2,
        ))
  | inr c ↦ (ground arith, subst (Ready ps) (ground arith) ready.2)
]

outcomes : List PersonPlan → List BulkOutcome
outcomes plans = map (λ p. p.outcome) plans

execute_all-outcomes :
    (env : Env) (batch : Batch) (plans done : List PersonPlan) (db db' : Db)
    → Ready plans db
    → execute_all env batch undisturbed plans db ≡ ok (done, db')
    → outcomes done ≡ outcomes plans
unfolding execute_all outcomes
execute_all-outcomes env batch [] done db db' ready h = ground arith
execute_all-outcomes env batch (p ∷ ps) done db db' ready h =
    let c = execute_all-cons env batch undisturbed p ps done db db' h in
    let one = execute_one-Ready env batch p c.0 ps db c.1 ready c.3 in
    ap outcomes c.5 ∙ λ i. one.0 i ∷ execute_all-outcomes env batch ps c.2 c.1 db' one.1 c.4 i

pub found_none :
    (test : Evaluation → Bool) (rs : List Evaluation) → first test rs ≡ none → any test rs ≡ false
found_none test [] h = refl
found_none test (r ∷ rs) h = ground (arith, found_none test rs)

plan_person-created :
    (p : Personnel) (db : Db)
    → is_created (plan_person db p).outcome ≡ true
    → has_open_record (plan_person db p).personnel_id db ≡ false
unfolding plan_one plan_access open_record_of has_open_record
plan_person-created p db h =
    ground
      (arith, found_none (λ r. r.subject_personnel_id == p.id && is_open r.status) db.evaluations)

pub plan_person-id : (p : Personnel) (db : Db) → (plan_person db p).personnel_id ≡ p.id
unfolding plan_one plan_access
plan_person-id p db = ground arith

All-plans :
    (n m : ℕ) (ps : List Personnel) (db : Db)
    → n ≡ m
    → All (λ q. (m == q.id) ≡ false) ps
    → All (λ q. (n == q.personnel_id) ≡ false) (map (plan_person db) ps)
All-plans n m [] db e h = tt
All-plans n m (p ∷ ps) db e h = (rw (e, plan_person-id p db) h.0, All-plans n m ps db e h.1)

plan-Ready :
    (ps : List Personnel) (db db' : Db)
    → db'.evaluations ≡ db.evaluations
    → OnePerId ps
    → Ready (map (plan_person db) ps) db'
unfolding has_open_record
plan-Ready [] db db' e one = tt
plan-Ready (p ∷ ps) db db' e one = (
  λ c.
      ap (any (λ r. r.subject_personnel_id == (plan_person db p).personnel_id && is_open r.status))
        e
      ∙ plan_person-created p db c,
  All-plans (plan_person db p).personnel_id p.id ps db (plan_person-id p db) one.0,
  plan-Ready ps db db' e one.1,
)

select-All :
    (f : Personnel → Bool) (n : ℕ) (ps : List Personnel)
    → All (λ q. (n == q.id) ≡ false) ps
    → All (λ q. (n == q.id) ≡ false) (select f ps)
select-All f n [] h = tt
select-All f n (p ∷ ps) h = elim (Bool-cases (f p)) [
  | inl e ↦ rw e (h.0, select-All f n ps h.1)
  | inr e ↦ rw e (select-All f n ps h.1)
]

select-OnePerId :
    (f : Personnel → Bool) (ps : List Personnel) → OnePerId ps → OnePerId (select f ps)
select-OnePerId f [] h = tt
select-OnePerId f (p ∷ ps) h = elim (Bool-cases (f p)) [
  | inl e ↦ rw e (select-All f p.id ps h.0, select-OnePerId f ps h.1)
  | inr e ↦ rw e (select-OnePerId f ps h.1)
]

-- What the preview announces is what the run does: where no other request commits in between and
-- the ids of the personnel are distinct, a run that answers gives each person of the cohort the
-- outcome of the plan made before it, in the same order.
pub execute-outcomes :
    (env : Env) (cohort : CohortFilter) (done : List PersonPlan) (db db' : Db)
    → OnePerId db.personnel
    → execute env undisturbed cohort db ≡ ok (done, db')
    → map (λ p. p.outcome) done ≡ map (λ p. p.outcome) (plan cohort db)
unfolding execute plan load_cohort outcomes
execute-outcomes env cohort done db db' one h =
    execute_all-outcomes env _ _ done (ensure_framework db).1 db'
      (plan-Ready (select (in_cohort cohort) db.personnel) db (ensure_framework db).1
        (ensure_framework-evaluations db) (select-OnePerId (in_cohort cohort) db.personnel one))
      h
