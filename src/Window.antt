-- ===== src/Window.antt =====
-- backend/app/services/evaluation_window.py: until when scores may be entered. A date is the number
-- of its day.
pub mod Deadline
mod Tests
use nafas_hr.Prelude.{
  ℕ, ◌==◌, Bool, true, false, ◌||◌, not, Option, none, some, first, ltb, leb, is_none,
  if◌then◌else◌,
}
use nafas_hr.Model.Enums.{open_period as open_status, closed_period, PeriodStatus}
use nafas_hr.Model.Values.{Env, http, window_closed}
use nafas_hr.Model.Evaluation.{Evaluation}
use nafas_hr.Model.Tables.{EvaluationPeriod}
use nafas_hr.Model.Store.{Db, Case}
use nafas_hr.Web.{Exec, raise_if}

-- `Window`.
pub record Window : Type 0 where
  pub closes_on : Option ℕ
  pub extended : Bool

abbrev is_open_status : PeriodStatus → Bool
is_open_status open_status = true
is_open_status closed_period = false

-- `open_period`: at most one period is open.
unfoldable pub open_period : Db → Option EvaluationPeriod
open_period db = first (λ p. is_open_status p.status) db.periods

ends_on_of : Option EvaluationPeriod → Option ℕ
ends_on_of none = none
ends_on_of (some p) = some p.ends_on

-- `period_end` of `window_for`.
unfoldable pub period_end : Db → Evaluation → Option ℕ
unfolding ends_on_of
period_end db r = elim r.period_id [
  | none ↦ none
  | some id ↦ ends_on_of (first (λ p. p.id == id) db.periods)
]

-- The extension counts where it is later than the end of the period, or where there is none.
unfoldable pub combine : Option ℕ → Option ℕ → Window
combine end none = record { closes_on = end; extended = false }
combine none (some extension) = record { closes_on = some extension; extended = true }
combine (some end) (some extension) =
    if ltb end extension
    then record { closes_on = some extension; extended = true }
    else record { closes_on = some end; extended = false }

-- `window_for`.
unfoldable pub window_for : Db → Evaluation → Window
window_for db r = combine (period_end db r) r.submission_extended_until

-- `Window.is_open`, on the day `today`.
unfoldable pub is_open : ℕ → Window → Bool
is_open today w = elim w.closes_on [ none ↦ true | some day ↦ leb today day ]

-- `ensure_open`.
unfoldable pub ensure_open : Env → Exec Case (Unit {0})
ensure_open env c =
    raise_if (not (is_open env.today (window_for c.db c.record_))) (http 400 window_closed) c

-- `record_accepts_entries`.
unfoldable pub record_accepts_entries : Env → Db → Evaluation → Bool
record_accepts_entries env db r = is_open env.today (window_for db r)
