-- ===== src/Periods/Sound.antt =====
-- At most one period is open, and every record's period exists, whatever is asked of the periods.
use mathlib.Core.Path.{subst}
use nafas_hr.Prelude.{
  ◌≡◌, refl, sym, ap, ◌∙◌, ℕ, ◌==◌, Bool, true, not, Option, none, some, List, [], ◌∷◌, first,
  select, length, is_just, Option-cases, inl, inr, arith,
}
use nafas_hr.Model.Enums.{closed_period}
use nafas_hr.Model.Values.{Env, ok}
use nafas_hr.Model.Evaluation.{Evaluation}
use nafas_hr.Model.Tables.{period_opened, CurrentUser, EvaluationPeriod, NotificationType, DedupKey}
use nafas_hr.Model.Store.{Db}
use nafas_hr.Web.{left_by, left_by-cases}
use nafas_hr.Audit.{log_event}
use nafas_hr.Notifications.{notify_one}
use nafas_hr.Notifications.Keeps.{notify-keeps}
use nafas_hr.Window.{open_period}
use nafas_hr.Cases.Chain.{require_hr}
use nafas_hr.Periods.{
  PeriodCreate, PeriodUpdate, is_open_period, period_at, new_period, add_period, put_in, put_period,
  announce_period, create_period, updated_period, update_period, records_in, delete_period,
  close_period,
}
use nafas_hr.Periods.Rows.{
  open_periods, IsSound, known-step, none_open, put_in-known, put_in-open, removed-open,
  removed-known,
}

abbrev pub PeriodsAreSound : Db → Type 0
PeriodsAreSound db = IsSound db.periods db.evaluations

-- The two tables that the theorem is about.
abbrev both : Db → List EvaluationPeriod × List Evaluation
both db = (db.periods, db.evaluations)

notify_one-both :
    (env : Env) (kind : NotificationType) (r : Option ℕ) (key : Option DedupKey) (id : ℕ) (db : Db)
    → both (notify_one env kind r key id db) ≡ both db
unfolding notify_one
notify_one-both env kind r key id db = refl

-- A request about the periods.
pub data PeriodDeed : Type 0 where
  create_deed : PeriodCreate → PeriodDeed
  update_deed : ℕ → PeriodUpdate → PeriodDeed
  delete_deed : ℕ → PeriodDeed
  close_deed : ℕ → Bool → PeriodDeed

abbrev pub do_period : Env → CurrentUser → PeriodDeed → Db → Db
do_period env user (create_deed payload) db = left_by (create_period env payload user db) db
do_period env user (update_deed id payload) db = left_by (update_period env id payload user db) db
do_period env user (delete_deed id) db = left_by (delete_period env id user db) db
do_period env user (close_deed id force) db = left_by (close_period env id force user db) db

abbrev pub do_periods : List (Env × CurrentUser × PeriodDeed) → Db → Db
do_periods [] db = db
do_periods ((env, user, d) ∷ ds) db = do_periods ds (do_period env user d db)

announce_period-both :
    (env : Env) (user : CurrentUser) (p : EvaluationPeriod) (db : Db)
    → both (announce_period env user p db) ≡ (p ∷ db.periods, db.evaluations)
unfolding announce_period log_event add_period
announce_period-both env user p db =
    notify-keeps both env (notify_one-both env) _ period_opened none _

sound-both :
    (db : Db) (ps : List EvaluationPeriod) (rs : List Evaluation)
    → both db ≡ (ps, rs)
    → IsSound ps rs
    → PeriodsAreSound db
sound-both db ps rs e h = subst (λ t. IsSound t.0 t.1) (sym e) h

create_period-Sound :
    (env : Env) (payload : PeriodCreate) (user : CurrentUser) (db db' : Db) (p : EvaluationPeriod)
    → PeriodsAreSound db
    → create_period env payload user db ≡ ok (p, db')
    → PeriodsAreSound db'
unfolding create_period open_period open_periods require_hr new_period
create_period-Sound env payload user db db' p sound h =
    let made = new_period payload user db in
    let closed : open_periods db.periods ≡ 0 = none_open db.periods (ground arith) in
    let e : db' ≡ announce_period env user made db = ground arith in
    sound-both db' (made ∷ db.periods) db.evaluations
      (ap both e ∙ announce_period-both env user made db)
      (
        ground (arith, closed),
        known-step db.periods (made ∷ db.periods) db.evaluations (λ n k. ground arith) sound.1,
      )

-- A row is written back that is open only where the row that it replaces is.
put_period-Sound :
    (v p : EvaluationPeriod) (db db' : Db)
    → both db' ≡ (put_in v db.periods, db.evaluations)
    → first (λ q. q.id == v.id) db.periods ≡ some p
    → (is_open_period v.status ≡ true → is_open_period p.status ≡ true)
    → PeriodsAreSound db
    → PeriodsAreSound db'
put_period-Sound v p db db' e found opens sound =
    sound-both db' (put_in v db.periods) db.evaluations e (
      omega (arith, put_in-open v db.periods found opens, sound.0),
      known-step db.periods (put_in v db.periods) db.evaluations (put_in-known v db.periods)
          sound.1,
    )

period_at-id : (id : ℕ) (db : Db) {p : EvaluationPeriod} → period_at id db ≡ some p → p.id ≡ id
unfolding period_at
period_at-id id db {p} h = go db.periods h
  where
    go : (ps : List EvaluationPeriod) → first (λ q. q.id == id) ps ≡ some p → p.id ≡ id
    go [] k = ground arith
    go (q ∷ ps) k = ground (arith, go ps)

at_own_id :
    (id : ℕ) (db : Db) (q : EvaluationPeriod)
    → period_at id db ≡ some q
    → first (λ p. p.id == q.id) db.periods ≡ some q
unfolding period_at
at_own_id id db q e = ap (λ n. first (λ p. p.id == n) db.periods) (period_at-id id db e) ∙ e

update_period-Sound :
    (env : Env) (id : ℕ) (payload : PeriodUpdate) (user : CurrentUser) (db db' : Db)
    (p : EvaluationPeriod)
    → PeriodsAreSound db
    → update_period env id payload user db ≡ ok (p, db')
    → PeriodsAreSound db'
unfolding update_period put_period updated_period log_event require_hr
update_period-Sound env id payload user db db' p sound h = elim (Option-cases (period_at id db)) [
  | inl e ↦ ground arith
  | inr (q, e) ↦
      put_period-Sound (updated_period payload q) q db db' (ground arith) (at_own_id id db q e)
        (λ k. k) sound
]

close_period-Sound :
    (env : Env) (id : ℕ) (force : Bool) (user : CurrentUser) (db db' : Db) (p : EvaluationPeriod)
    → PeriodsAreSound db
    → close_period env id force user db ≡ ok (p, db')
    → PeriodsAreSound db'
unfolding close_period put_period log_event require_hr
close_period-Sound env id force user db db' p sound h = elim (Option-cases (period_at id db)) [
  | inl e ↦ ground arith
  | inr (q, e) ↦
      put_period-Sound (record q { status = closed_period; closed_at = some env.now }) q db db'
        (ground arith) (at_own_id id db q e) (λ k. ground arith) sound
]

delete_period-Sound :
    (env : Env) (id : ℕ) (user : CurrentUser) (db db' : Db) (u : Unit {0})
    → PeriodsAreSound db
    → delete_period env id user db ≡ ok (u, db')
    → PeriodsAreSound db'
unfolding delete_period records_in log_event require_hr
delete_period-Sound env id user db db' u sound h =
    let e : both db' ≡ (select (λ q. not (q.id == id)) db.periods, db.evaluations) = ground arith in
    let unused : length (select (λ r. is_just id r.period_id) db.evaluations) ≡ 0 = ground arith in
    sound-both db' (select (λ q. not (q.id == id)) db.periods) db.evaluations e (
      omega (arith, removed-open id db.periods, sound.0),
      removed-known id db.periods db.evaluations unused sound.1,
    )

do_period-Sound :
    (env : Env) (user : CurrentUser) (d : PeriodDeed) (db : Db)
    → PeriodsAreSound db
    → PeriodsAreSound (do_period env user d db)
do_period-Sound env user (create_deed payload) db sound =
    left_by-cases PeriodsAreSound (create_period env payload user db) db sound
      (λ p db' h. create_period-Sound env payload user db db' p sound h)
do_period-Sound env user (update_deed id payload) db sound =
    left_by-cases PeriodsAreSound (update_period env id payload user db) db sound
      (λ p db' h. update_period-Sound env id payload user db db' p sound h)
do_period-Sound env user (delete_deed id) db sound =
    left_by-cases PeriodsAreSound (delete_period env id user db) db sound
      (λ u db' h. delete_period-Sound env id user db db' u sound h)
do_period-Sound env user (close_deed id force) db sound =
    left_by-cases PeriodsAreSound (close_period env id force user db) db sound
      (λ p db' h. close_period-Sound env id force user db db' p sound h)

-- Whatever is asked of the periods, by whomever and in which order, answered or refused: if at most
-- one period was open and the period of every record existed, then that is still so.
pub do_periods-Sound :
    (ds : List (Env × CurrentUser × PeriodDeed)) (db : Db)
    → PeriodsAreSound db
    → PeriodsAreSound (do_periods ds db)
do_periods-Sound [] db sound = sound
do_periods-Sound ((env, user, d) ∷ ds) db sound =
    do_periods-Sound ds (do_period env user d db) (do_period-Sound env user d db sound)
