-- ===== src/Scheduled.antt =====
-- backend/app/services/scheduled.py: the sweeps over contracts that end, over records that stand
-- still and over records whose owner has left. Each answers how many notifications it made. A
-- notification without a user is refused by the database, and with it the whole run.
pub mod Owners
pub mod Repeat
mod Tests
use nafas_hr.Prelude.{
  ℕ, ◌+◌, ◌*◌, ◌==◌, Bool, true, false, not, ◌&&◌, ◌||◌, Option, none, some, List, [], ◌∷◌, any,
  elem, select, leb, is_none, if◌then◌else◌,
}
use nafas_hr.Model.Enums.{
  draft, submitted, hr_approved, deputy_approved, finalized, cancelled, is_submitted,
  is_active_personnel,
}
use nafas_hr.Model.Values.{Env, http, internal_error}
use nafas_hr.Model.Evaluation.{Evaluation}
use nafas_hr.Model.Tables.{
  Personnel, DedupKey, expiry_of, stalled_at, orphaned_at, NotificationType, contract_expiry,
  sla_reminder, orphaned_case,
}
use nafas_hr.Model.Store.{Db}
use nafas_hr.Web.{Exec, pure, raise, gets, modify, ◌>>=◌, ◌>>◌}
use nafas_hr.Notifications.{notify_once, active_hr_ids}
use nafas_hr.Workflow.Table.{is_open}
use nafas_hr.Cases.Open.{has_open_record}

-- The settings of backend/app/core/config.py that the sweeps read.
pub record SweepSettings : Type 0 where
  pub contract_expiry_alert_days : ℕ
  pub notification_dedup_days : ℕ
  pub sla_reminder_days : ℕ

-- `if notify_once(...): created += 1`, for each user.
unfoldable pub notify_users :
    Env → NotificationType → DedupKey → ℕ → Option ℕ → List ℕ → Db → ℕ × Db
notify_users env kind key days record_id [] db = (0, db)
notify_users env kind key days record_id (id ∷ ids) db =
    let sent = notify_once env id kind key days record_id db in
    let rest = notify_users env kind key days record_id ids sent.1 in
    ((if sent.0 then 1 else 0) + rest.0, rest.1)

-- `expiring`: an active person whose contract ends by the horizon, with no open record.
unfoldable pub is_expiring : SweepSettings → Env → Db → Personnel → Bool
is_expiring settings env db p =
    is_active_personnel p.status
    && (leb p.contract_end_date (env.today + settings.contract_expiry_alert_days)
        && not (has_open_record p.id db))

-- The loop of `run_contract_expiry_sweep`.
unfoldable pub warn_of : SweepSettings → Env → List ℕ → List Personnel → Db → ℕ × Db
warn_of settings env hr_ids [] db = (0, db)
warn_of settings env hr_ids (p ∷ ps) db =
    let days = settings.notification_dedup_days in
    let sent = notify_users env contract_expiry (expiry_of p.id) days none hr_ids db in
    let rest = warn_of settings env hr_ids ps sent.1 in (sent.0 + rest.0, rest.1)

-- `run_contract_expiry_sweep`. The order in which the contracts end is left out.
unfoldable pub run_contract_expiry_sweep : SweepSettings → Env → Db → ℕ × Db
run_contract_expiry_sweep settings env db =
    warn_of settings env (active_hr_ids db) (select (is_expiring settings env db) db.personnel) db

abbrev listed : Option ℕ → List (Option ℕ)
listed none = []
listed (some n) = some n ∷ []

abbrev all_some : List ℕ → List (Option ℕ)
all_some [] = []
all_some (n ∷ ns) = some n ∷ all_some ns

-- The owner of a draft.
abbrev pub draft_owner : Evaluation → Option ℕ
draft_owner r =
    if is_none r.deputy_user_id && is_none r.unit_supervisor_user_id
    then some r.ceo_user_id
    else if is_none r.unit_supervisor_user_id
    then r.deputy_user_id
    else r.unit_supervisor_user_id

-- `_current_owner_ids`. At `hr_approved` it lists the deputy also where there is none.
unfoldable pub current_owner_ids : Db → Evaluation → List (Option ℕ)
current_owner_ids db r = elim r.status [
  | draft ↦ listed (draft_owner r)
  | submitted ↦ all_some (active_hr_ids db)
  | hr_approved ↦ r.deputy_user_id ∷ []
  | deputy_approved ↦ some r.ceo_user_id ∷ []
  | finalized ↦ []
  | cancelled ↦ []
]

-- One owner is reminded; a notification needs a user.
unfoldable pub remind_owner : SweepSettings → Env → Evaluation → Option ℕ → Exec Db ℕ
remind_owner settings env r none = raise (http 500 internal_error)
remind_owner settings env r (some id) = do
  sent ← gets (
      notify_once env id sla_reminder (stalled_at r.id r.status) settings.sla_reminder_days
        (some r.id))
  modify (λ _. sent.1)
  pure (if sent.0 then 1 else 0)

unfoldable pub remind_owners : SweepSettings → Env → Evaluation → List (Option ℕ) → Exec Db ℕ
remind_owners settings env r [] = pure 0
remind_owners settings env r (owner ∷ owners) = do
  n ← remind_owner settings env r owner
  m ← remind_owners settings env r owners
  pure (n + m)

-- `stalled`: the record is open and has stood at its stage for the days of the setting.
unfoldable pub is_stalled : SweepSettings → Env → Evaluation → Bool
is_stalled settings env r =
    is_open r.status && leb (r.stage_entered_at + settings.sla_reminder_days * 86400) env.now

unfoldable pub remind_records : SweepSettings → Env → List Evaluation → Exec Db ℕ
remind_records settings env [] = pure 0
remind_records settings env (r ∷ rs) = do
  owners ← gets (λ db. current_owner_ids db r)
  n ← remind_owners settings env r owners
  m ← remind_records settings env rs
  pure (n + m)

-- `run_sla_sweep`.
unfoldable pub run_sla_sweep : SweepSettings → Env → Exec Db ℕ
run_sla_sweep settings env = do
  stalled ← gets (λ db. select (is_stalled settings env) db.evaluations)
  remind_records settings env stalled

abbrev some_of : List (Option ℕ) → List ℕ
some_of [] = []
some_of (none ∷ os) = some_of os
some_of (some n ∷ os) = n ∷ some_of os

abbrev has_none : List (Option ℕ) → Bool
has_none [] = true
has_none (_ ∷ _) = false

-- The stage has owners, but none of them is an active user. `submitted` has no owner of its own.
unfoldable pub is_orphaned : Db → Evaluation → Bool
is_orphaned db r =
    let owners = current_owner_ids db r in
    not (has_none owners || is_submitted r.status)
    && not (any (λ u. elem u.id (some_of owners) && u.is_active) db.users)

unfoldable pub report_records : SweepSettings → Env → List ℕ → List Evaluation → Db → ℕ × Db
report_records settings env hr_ids [] db = (0, db)
report_records settings env hr_ids (r ∷ rs) db =
    let days = settings.notification_dedup_days in
    let key = orphaned_at r.id r.status in
    let sent =
      if is_orphaned db r
      then notify_users env orphaned_case key days (some r.id) hr_ids db
      else (0, db) in
    let rest = report_records settings env hr_ids rs sent.1 in (sent.0 + rest.0, rest.1)

-- `run_orphaned_case_sweep`.
unfoldable pub run_orphaned_case_sweep : SweepSettings → Env → Db → ℕ × Db
run_orphaned_case_sweep settings env db =
    report_records settings env (active_hr_ids db) (select (λ r. is_open r.status) db.evaluations)
      db
