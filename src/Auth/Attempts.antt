-- ===== src/Auth/Attempts.antt =====
-- backend/app/services/login_guard.py: the lock of a user name after too many failed logins. A
-- moment is a number of seconds; `last < now - window` is written `last + window < now`, which is
-- the same where the difference is not negative.
pub mod Locks
pub mod Purge
use text.Mathlib.Text.{◌==◌ as str_eq}
use nafas_hr.Prelude.{
  ℕ, ◌+◌, ◌*◌, Bool, true, false, not, ◌&&◌, ◌||◌, Option, none, some, List, [], ◌∷◌, String, first,
  select, ltb, leb, if◌then◌else◌,
}
use nafas_hr.Model.Values.{Env}
use nafas_hr.Model.Tables.{LoginAttempt, DedupKey, lockout, account_locked}
use nafas_hr.Model.Store.{Db}
use nafas_hr.Notifications.{notify_once, active_hr_ids}

-- The settings of backend/app/core/config.py that the code of logins reads.
pub record AuthSettings : Type 0 where
  pub login_max_failed_attempts : ℕ
  pub login_lockout_minutes : ℕ
  pub login_attempt_window_minutes : ℕ
  pub refresh_token_expire_days : ℕ
  pub access_token_expire_minutes : ℕ

-- `timedelta(minutes=n)`.
abbrev pub minutes : ℕ → ℕ
minutes n = n * 60

-- `db.get(LoginAttempt, username)`.
unfoldable pub attempt_of : String → List LoginAttempt → Option LoginAttempt
attempt_of username rows = first (λ a. str_eq a.username username) rows

-- The end of a lock that still runs.
abbrev pub running_lock : ℕ → Option ℕ → Option ℕ
running_lock now none = none
running_lock now (some until) = if leb until now then none else some until

abbrev pub lock_in : ℕ → Option LoginAttempt → Option ℕ
lock_in now none = none
lock_in now (some a) = running_lock now a.locked_until

-- `locked_until`.
unfoldable pub locked_until : ℕ → List LoginAttempt → String → Option ℕ
locked_until now rows username = lock_in now (attempt_of username rows)

-- The last failure lies outside the window.
abbrev pub is_stale : AuthSettings → ℕ → LoginAttempt → Bool
is_stale settings now a = ltb (a.last_failed_at + minutes settings.login_attempt_window_minutes) now

-- The row with this failure counted.
unfoldable pub counted : AuthSettings → ℕ → String → Option LoginAttempt → LoginAttempt
counted settings now username none = record {
  username = username;
  failed_count = 1;
  first_failed_at = now;
  last_failed_at = now;
  locked_until = none;
}
counted settings now username (some a) =
    if is_stale settings now a
    then record a {
      failed_count = 1;
      first_failed_at = now;
      last_failed_at = now;
      locked_until = none;
    }
    else record a { failed_count = a.failed_count + 1; last_failed_at = now }

-- The row locked where the limit is reached, and the end of that lock.
unfoldable pub lock_at_limit : AuthSettings → ℕ → LoginAttempt → Option ℕ × LoginAttempt
lock_at_limit settings now a =
    if leb settings.login_max_failed_attempts a.failed_count
    then (
      some (now + minutes settings.login_lockout_minutes),
      record a {
        locked_until = some (now + minutes settings.login_lockout_minutes);
        failed_count = 0;
      },
    )
    else (none, a)

-- The row is written in place of the one with its name.
unfoldable pub put_attempt : LoginAttempt → List LoginAttempt → List LoginAttempt
put_attempt a [] = a ∷ []
put_attempt a (b ∷ bs) = if str_eq b.username a.username then a ∷ bs else b ∷ put_attempt a bs

-- `record_failure`.
unfoldable pub record_failure :
    AuthSettings → ℕ → String → List LoginAttempt → Option ℕ × List LoginAttempt
record_failure settings now username rows =
    let done =
      lock_at_limit settings now (counted settings now username (attempt_of username rows)) in
    (done.0, put_attempt done.1 rows)

-- `clear_failures`.
unfoldable pub clear_failures : String → List LoginAttempt → List LoginAttempt
clear_failures username rows = select (λ a. not (str_eq a.username username)) rows

-- `LoginAttempt.locked_until.is_(None) | (LoginAttempt.locked_until < now)`.
abbrev pub has_no_lock : ℕ → Option ℕ → Bool
has_no_lock now none = true
has_no_lock now (some until) = ltb until now

-- `purge_stale`.
unfoldable pub purge_stale : AuthSettings → ℕ → List LoginAttempt → List LoginAttempt
purge_stale settings now rows =
    select (λ a. not (is_stale settings now a && has_no_lock now a.locked_until)) rows

unfoldable pub notify_each : Env → DedupKey → List ℕ → Db → Db
notify_each env key [] db = db
notify_each env key (id ∷ ids) db =
    notify_each env key ids (notify_once env id account_locked key 1 none db).1

-- `notify_hr_of_lockout`.
unfoldable pub notify_hr_of_lockout : Env → String → ℕ → Db → Db
notify_hr_of_lockout env username until db =
    notify_each env (lockout username until) (active_hr_ids db) db
