-- ===== src/Window/Deadline.antt =====
-- backend/app/services/evaluation_window.py: the deadline is the later of the end of the period and
-- the extension.
use nafas_hr.Prelude.{ℕ, max, ◌≡◌, ◌≤◌, ◌<◌, refl, true, false, Option, none, some, arith}
use nafas_hr.Model.Evaluation.{Evaluation}
use nafas_hr.Model.Store.{Db}
use nafas_hr.Model.Values.{Env}
use nafas_hr.Window.{combine, window_for, period_end, is_open, record_accepts_entries}

-- The later of two dates, of which either may be missing.
abbrev pub latest : Option ℕ → Option ℕ → Option ℕ
latest none y = y
latest (some x) none = some x
latest (some x) (some y) = some (max x y)

combine-latest : (a b : Option ℕ) → (combine a b).closes_on ≡ latest a b
unfolding combine
combine-latest a none = ground arith
combine-latest none (some y) = refl
combine-latest (some x) (some y) = ground arith

-- The window closes on the later of the end of the period and the extension, and on no day exactly
-- when the record has neither.
pub closes_on-window_for :
    (db : Db) (r : Evaluation)
    → (window_for db r).closes_on ≡ latest (period_end db r) r.submission_extended_until
unfolding window_for
closes_on-window_for db r = combine-latest (period_end db r) r.submission_extended_until

-- The same record with an extension, or with none.
abbrev pub with_extension : Option ℕ → Evaluation → Evaluation
with_extension extension r = record r { submission_extended_until = extension }

combine_keeps :
    (today e : ℕ) (y : Option ℕ)
    → is_open today (combine (some e) none) ≡ true
    → is_open today (combine (some e) y) ≡ true
unfolding is_open combine
combine_keeps today e none h = h
combine_keeps today e (some y) h = ground arith

-- For a record whose period has an end, an extension never closes a day on which entries were
-- accepted.
pub extension_keeps_open :
    (env : Env) (db : Db) (r : Evaluation) {end : ℕ} (y : ℕ)
    → period_end db r ≡ some end
    → record_accepts_entries env db (with_extension none r) ≡ true
    → record_accepts_entries env db (with_extension (some y) r) ≡ true
unfolding record_accepts_entries window_for period_end
extension_keeps_open env db r {end} y e = rw e (combine_keeps env.today end (some y))

-- An extension opens every day up to its own.
pub extension_opens :
    (env : Env) (db : Db) (r : Evaluation) (y : ℕ)
    → env.today ≤ y
    → record_accepts_entries env db (with_extension (some y) r) ≡ true
unfolding record_accepts_entries window_for is_open combine
extension_opens env db r y h = ground arith

-- A record outside any period accepts entries on every day; once it is given an extension, it
-- accepts them on no later day. So a reopening closes it.
pub extension_closes_unlimited :
    (env : Env) (db : Db) (r : Evaluation) (y : ℕ)
    → period_end db r ≡ none
    → y < env.today
    → (record_accepts_entries env db (with_extension none r) ≡ true)
      × (record_accepts_entries env db (with_extension (some y) r) ≡ false)
unfolding record_accepts_entries window_for period_end is_open combine
extension_closes_unlimited env db r y e h = (rw e refl, rw e (ground arith))
