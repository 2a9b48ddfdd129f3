-- ===== src/Cases/Deeds/Reach.antt =====
-- The life of one evaluation record as a sequence of answered requests, in any order and by any
-- users, and what other requests do to the tables in between.
use nafas_hr.Prelude.{ℕ, ◌≡◌, ap, ◌∙◌, false, Option, arith}
use nafas_hr.Model.Enums.{draft}
use nafas_hr.Model.Values.{Env, ok}
use nafas_hr.Model.Evaluation.{Evaluation}
use nafas_hr.Model.Tables.{CurrentUser, Personnel, EvaluationAccess, IndicatorFramework}
use nafas_hr.Model.Store.{Db, Case}
use nafas_hr.Workflow.Table.{is_open}
use nafas_hr.Workflow.Diagram.{on_route}
use nafas_hr.Scoring.Floats.{FloatOps}
use nafas_hr.Cases.Deeds.Closed.{Request, run_request, Frozen, run_request-Frozen}
use nafas_hr.Cases.Deeds.Sealing.{IsSound, passed_hr, run_request-IsSound}
use nafas_hr.Cases.Open.{new_record, create_evaluation}
use nafas_hr.Cases.Open.Unique.{create_evaluation-adds}

module _ {F : Type 0} (fl : FloatOps F) where
  -- One step: a request for the record is answered, or other requests change the tables.
  pub data Step : Case → Case → Type 0 where
    answered :
        {c c' : Case} (env : Env) (user : CurrentUser) (request : Request)
        → run_request fl env user request c ≡ ok (tt, c')
        → Step c c'
    elsewhere : {c : Case} (db : Db) → Step c (record c { db = db })

  pub data Steps : Case → Case → Type 0 where
    stop : {c : Case} → Steps c c
    next : {a b c : Case} → Step a b → Steps b c → Steps a c

  Step-IsSound : {c c' : Case} → Step c c' → IsSound c.record_ → IsSound c'.record_
  Step-IsSound (answered {c} {c'} env user request h) s =
      run_request-IsSound fl env user request c c' s h
  Step-IsSound (elsewhere db) s = s

  -- Whatever requests are answered, in any order, a sound record stays sound.
  pub Steps-IsSound : {c c' : Case} → Steps c c' → IsSound c.record_ → IsSound c'.record_
  Steps-IsSound stop s = s
  Steps-IsSound (next step rest) s = Steps-IsSound rest (Step-IsSound step s)

  Frozen-refl : (r : Evaluation) → Frozen r r
  Frozen-refl r = ground arith

  Step-Frozen :
      {c c' : Case} → Step c c' → is_open c.record_.status ≡ false → Frozen c.record_ c'.record_
  Step-Frozen (answered {c} {c'} env user request h) closed =
      run_request-Frozen fl env user request c c' closed h
  Step-Frozen (elsewhere {c} db) closed = Frozen-refl c.record_

  Frozen-trans : (r s t : Evaluation) → Frozen r s → Frozen s t → Frozen r t
  Frozen-trans r s t a b = ground arith

  -- Once a record is finalized or cancelled, no sequence of requests changes its status, its result,
  -- its snapshot or its token.
  pub Steps-Frozen :
      {c c' : Case} → Steps c c' → is_open c.record_.status ≡ false → Frozen c.record_ c'.record_
  Steps-Frozen (stop {c}) closed = Frozen-refl c.record_
  Steps-Frozen (next {a} {b} {c} step rest) closed =
      let f = Step-Frozen step closed in
      Frozen-trans a.record_ b.record_ c.record_ f
        (Steps-Frozen rest (ap is_open f.same_status ∙ closed))

-- A record is sound when it is opened.
pub new_record-IsSound :
    (env : Env) (db : Db) (p : Personnel) (access : EvaluationAccess) (supervisor : Option ℕ)
    (framework : IndicatorFramework)
    → IsSound (new_record env db p access supervisor framework)
unfolding new_record on_route passed_hr
new_record-IsSound env db p access supervisor framework = ground arith

-- A draft is sound.
draft-IsSound : (r : Evaluation) → r.status ≡ draft → IsSound r
unfolding on_route passed_hr
draft-IsSound r h = ground arith

-- From the moment when a record is opened, whatever requests are answered for it, in any order, its
-- status is a stage of its path, human resources have an owner for it once they have passed it on, and
-- it is finalized only with a result, a snapshot, a token and a moment.
pub opened-Steps-IsSound :
    {F : Type 0} (fl : FloatOps F) (env : Env) (subject : ℕ) (user : CurrentUser) (db db' : Db)
    (r : Evaluation) {c : Case}
    → create_evaluation env subject user db ≡ ok (r, db')
    → Steps fl (record { record_ = r; db = db' }) c
    → IsSound c.record_
opened-Steps-IsSound fl env subject user db db' r h steps =
    let a = create_evaluation-adds env subject user db db' r h in
    Steps-IsSound fl steps (draft-IsSound r a.2)
