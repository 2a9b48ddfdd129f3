-- ===== src/Periods.antt =====
-- backend/app/api/routers/periods.py: periods of evaluation are opened, changed, deleted and closed.
-- A field of a change that is sent as null is left out.
pub mod Rows
pub mod Sound
mod Tests
use nafas_hr.Prelude.{
  ℕ, ◌+◌, ◌==◌, Bool, true, false, not, ◌&&◌, ◌||◌, Option, none, some, List, [], ◌∷◌, ◌++◌, String,
  map, first, select, length, leb, is_some, is_just, if◌then◌else◌,
}
use nafas_hr.Model.Enums.{
  UserRole, unit_supervisor, deputy, PeriodStatus, open_period as open_status, closed_period,
}
use nafas_hr.Model.Values.{
  Env, Json, num, day, text, Detail, http, not_found, period_still_open, dates_out_of_order,
  period_has_records, period_already_closed, period_has_open_records,
}
use nafas_hr.Model.Evaluation.{Evaluation}
use nafas_hr.Model.Tables.{User, CurrentUser, EvaluationPeriod, period_opened}
use nafas_hr.Model.Store.{Db}
use nafas_hr.Web.{Exec, pure, raise_if, or_raise, gets, modify, ◌>>=◌, ◌>>◌}
use nafas_hr.Audit.{log_event}
use nafas_hr.Notifications.{notify}
use nafas_hr.Window.{open_period}
use nafas_hr.Workflow.Table.{is_open}
use nafas_hr.Cases.Chain.{require_hr}

-- `PeriodCreate`.
pub record PeriodCreate : Type 0 where
  pub name : String
  pub starts_on : ℕ
  pub ends_on : ℕ

-- `PeriodUpdate`, with the fields that are set.
pub record PeriodUpdate : Type 0 where
  pub name : Option String
  pub starts_on : Option ℕ
  pub ends_on : Option ℕ

abbrev pub is_open_period : PeriodStatus → Bool
is_open_period open_status = true
is_open_period closed_period = false

-- `PeriodStatus.value`.
abbrev period_status_value : PeriodStatus → String
period_status_value open_status = "open"
period_status_value closed_period = "closed"

abbrev is_evaluator : UserRole → Bool
is_evaluator unit_supervisor = true
is_evaluator deputy = true
is_evaluator _ = false

-- `evaluator_ids`.
unfoldable pub evaluator_ids : Db → List ℕ
evaluator_ids db = map (λ u. u.id) (select (λ u. is_evaluator u.role && u.is_active) db.users)

-- `db.get(EvaluationPeriod, period_id)`.
unfoldable pub period_at : ℕ → Db → Option EvaluationPeriod
period_at id db = first (λ p. p.id == id) db.periods

-- The row that `create_period` adds.
unfoldable pub new_period : PeriodCreate → CurrentUser → Db → EvaluationPeriod
new_period payload user db = record {
  id = db.next_id;
  name = payload.name;
  starts_on = payload.starts_on;
  ends_on = payload.ends_on;
  status = open_status;
  created_by_user_id = some user.id;
  closed_at = none;
}

unfoldable pub add_period : EvaluationPeriod → Db → Db
add_period p db = record db { periods = p ∷ db.periods; next_id = db.next_id + 1 }

unfoldable pub put_in : EvaluationPeriod → List EvaluationPeriod → List EvaluationPeriod
put_in p [] = []
put_in p (q ∷ qs) = if q.id == p.id then p ∷ qs else q ∷ put_in p qs

-- The row is written back in its place.
unfoldable pub put_period : EvaluationPeriod → Db → Db
put_period p db = record db { periods = put_in p db.periods }

-- The row is added and logged, and the evaluators are told.
unfoldable pub announce_period : Env → CurrentUser → EvaluationPeriod → Db → Db
announce_period env user p db =
    let logged =
      log_event env user.id "period_created" none none
        (some (("id", num p.id) ∷ ("name", text p.name) ∷ [])) (add_period p db) in
    notify env (evaluator_ids logged) period_opened none logged

-- `create_period`. `PeriodCreate` itself refuses dates out of order.
unfoldable pub create_period : Env → PeriodCreate → CurrentUser → Exec Db EvaluationPeriod
create_period env payload user = do
  require_hr user
  raise_if (leb payload.ends_on payload.starts_on) (http 422 dates_out_of_order)
  raise_if (is_some (← gets open_period)) (http 400 period_still_open)
  p ← gets (new_period payload user)
  modify (announce_period env user p)
  pure p

abbrev set_or : {A : Type 0} → Option A → A → A
set_or none a = a
set_or (some b) a = b

abbrev shown : {A : Type 0} → String → (A → Json) → Option A → Detail
shown key f none = []
shown key f (some a) = (key, f a) ∷ []

-- The row with the fields that are set.
unfoldable pub updated_period : PeriodUpdate → EvaluationPeriod → EvaluationPeriod
updated_period payload p = record p {
  name = set_or payload.name p.name;
  starts_on = set_or payload.starts_on p.starts_on;
  ends_on = set_or payload.ends_on p.ends_on;
}

-- `update_period`.
unfoldable pub update_period : Env → ℕ → PeriodUpdate → CurrentUser → Exec Db EvaluationPeriod
update_period env id payload user = do
  require_hr user
  p ← or_raise (← gets (period_at id)) (http 404 not_found)
  raise_if (leb (set_or payload.ends_on p.ends_on) (set_or payload.starts_on p.starts_on))
      (http 400 dates_out_of_order)
  modify (put_period (updated_period payload p))
  modify (
      log_event env user.id "period_updated" none
        (some (
          ("name", text p.name) ∷ ("starts_on", day p.starts_on) ∷ ("ends_on", day p.ends_on) ∷ []))
        (some (
          ("id", num p.id)
          ∷ (shown "name" text payload.name
              ++ (shown "starts_on" day payload.starts_on
                  ++ shown "ends_on" day payload.ends_on)))))
  pure (updated_period payload p)

-- The records of the period, and those of them that are open.
unfoldable pub records_in : ℕ → Db → List Evaluation
records_in id db = select (λ r. is_just id r.period_id) db.evaluations

unfoldable pub open_records_in : ℕ → Db → List Evaluation
open_records_in id db = select (λ r. is_just id r.period_id && is_open r.status) db.evaluations

-- `delete_period`.
unfoldable pub delete_period : Env → ℕ → CurrentUser → Exec Db (Unit {0})
delete_period env id user = do
  require_hr user
  p ← or_raise (← gets (period_at id)) (http 404 not_found)
  count ← gets (λ db. length (records_in id db))
  raise_if (not (count == 0)) (http 409 period_has_records)
  modify (λ db. record db { periods = select (λ q. not (q.id == id)) db.periods })
  modify (
      log_event env user.id "period_deleted" none
        (some (
          ("id", num p.id)
          ∷ ("name", text p.name)
          ∷ ("status", text (period_status_value p.status))
          ∷ ("starts_on", day p.starts_on)
          ∷ ("ends_on", day p.ends_on)
          ∷ []))
        none)

-- `close_period`.
unfoldable pub close_period : Env → ℕ → Bool → CurrentUser → Exec Db EvaluationPeriod
close_period env id force user = do
  require_hr user
  p ← or_raise (← gets (period_at id)) (http 404 not_found)
  raise_if (not (is_open_period p.status)) (http 400 period_already_closed)
  open_cases ← gets (λ db. length (open_records_in id db))
  raise_if (not (open_cases == 0) && not force) (http 409 period_has_open_records)
  let closed : EvaluationPeriod = record p { status = closed_period; closed_at = some env.now }
  modify (put_period closed)
  modify (
      log_event env user.id "period_closed" none none
        (some (("id", num p.id) ∷ ("name", text p.name) ∷ ("open_cases", num open_cases) ∷ [])))
  pure closed
