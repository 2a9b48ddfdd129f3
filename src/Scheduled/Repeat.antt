-- ===== src/Scheduled/Repeat.antt =====
-- A sweep that is run again at once says nothing twice.
use text.Mathlib.TextPositions.{eq_refl}
use nafas_hr.Prelude.{
  ◌≡◌, refl, ap, ◌∙◌, ℕ, true, false, Option, none, List, [], ◌∷◌, All, select, ==-refl, arith,
}
use nafas_hr.Model.Values.{Env}
use nafas_hr.Model.Enums.{status_value}
use nafas_hr.Model.Evaluation.{Evaluation}
use nafas_hr.Model.Tables.{
  User, Personnel, DedupKey, lockout, expiry_of, stalled_at, orphaned_at, NotificationType,
  contract_expiry,
}
use nafas_hr.Model.Store.{Db}
use nafas_hr.Delivery.Enqueue.{is_finalized_self}
use nafas_hr.Notifications.{notify_once, notify_one, was_notified, key_eq, active_hr_ids}
use nafas_hr.Cases.Open.{has_open_record}
use nafas_hr.Scheduled.{
  SweepSettings, notify_users, is_expiring, warn_of, run_contract_expiry_sweep,
}

key_eq_refl : (k : DedupKey) → key_eq k k ≡ true
key_eq_refl (lockout u t) = ground (arith, eq_refl u, ==-refl t)
key_eq_refl (expiry_of n) = ==-refl n
key_eq_refl (stalled_at n s) = ground (arith, eq_refl (status_value s), ==-refl n)
key_eq_refl (orphaned_at n s) = ground (arith, eq_refl (status_value s), ==-refl n)

-- What a sweep reads of the tables, and the notifications that it makes.
abbrev read : Db → List User × List Personnel × List Evaluation
read db = (db.users, db.personnel, db.evaluations)

module _ (env : Env) (kind : NotificationType) (days : ℕ) (record_id : Option ℕ)
    (other : is_finalized_self kind ≡ false) where
  once_notified :
      (id : ℕ) (key : DedupKey) (db : Db)
      → was_notified env id key days (notify_once env id kind key days record_id db).1 ≡ true
  unfolding notify_once notify_one was_notified
  once_notified id key db = ground (arith, key_eq_refl key, ==-refl id)

  once_keeps :
      (id : ℕ) (key : DedupKey) (i : ℕ) (k : DedupKey) (db : Db)
      → was_notified env i k days db ≡ true
      → was_notified env i k days (notify_once env id kind key days record_id db).1 ≡ true
  unfolding notify_once notify_one was_notified
  once_keeps id key i k db h = ground arith

  once_again :
      (id : ℕ) (key : DedupKey) (db : Db)
      → was_notified env id key days db ≡ true
      → notify_once env id kind key days record_id db ≡ (false, db)
  unfolding notify_once
  once_again id key db h = ground arith

  once_read :
      (id : ℕ) (key : DedupKey) (db : Db)
      → read (notify_once env id kind key days record_id db).1 ≡ read db
  unfolding notify_once notify_one
  once_read id key db = ground arith

  users_keep :
      (ids : List ℕ) (key : DedupKey) (i : ℕ) (k : DedupKey) (db : Db)
      → was_notified env i k days db ≡ true
      → was_notified env i k days (notify_users env kind key days record_id ids db).1 ≡ true
  unfolding notify_users
  users_keep [] key i k db h = h
  users_keep (id ∷ ids) key i k db h =
      users_keep ids key i k (notify_once env id kind key days record_id db).1
        (once_keeps id key i k db h)

  users_notified :
      (ids : List ℕ) (key : DedupKey) (db : Db)
      → All
          (λ id.
            was_notified env id key days (notify_users env kind key days record_id ids db).1 ≡ true)
          ids
  unfolding notify_users
  users_notified [] key db = tt
  users_notified (id ∷ ids) key db =
      let next = (notify_once env id kind key days record_id db).1 in
      (users_keep ids key id key next (once_notified id key db), users_notified ids key next)

  users_again :
      (ids : List ℕ) (key : DedupKey) (db : Db)
      → All (λ id. was_notified env id key days db ≡ true) ids
      → notify_users env kind key days record_id ids db ≡ (0, db)
  unfolding notify_users
  users_again [] key db h = refl
  users_again (id ∷ ids) key db h =
      rw (once_again id key db h.0) (rw (users_again ids key db h.1) refl)

  users_read :
      (ids : List ℕ) (key : DedupKey) (db : Db)
      → read (notify_users env kind key days record_id ids db).1 ≡ read db
  unfolding notify_users
  users_read [] key db = refl
  users_read (id ∷ ids) key db =
      users_read ids key (notify_once env id kind key days record_id db).1 ∙ once_read id key db

All-map : {P Q : ℕ → Type 0} (ids : List ℕ) → ((id : ℕ) → P id → Q id) → All P ids → All Q ids
All-map [] f h = tt
All-map (id ∷ ids) f h = (f id h.0, All-map ids f h.1)

module _ (settings : SweepSettings) (env : Env) (hr_ids : List ℕ) where
  abbrev days : ℕ
  days = settings.notification_dedup_days

  -- Human resources have been told about each of these people.
  abbrev AllTold : List Personnel → Db → Type 0
  AllTold ps db =
      All (λ p. All (λ id. was_notified env id (expiry_of p.id) days db ≡ true) hr_ids) ps

  warn_keeps :
      (ps : List Personnel) (i : ℕ) (k : DedupKey) (db : Db)
      → was_notified env i k days db ≡ true
      → was_notified env i k days (warn_of settings env hr_ids ps db).1 ≡ true
  unfolding warn_of
  warn_keeps [] i k db h = h
  warn_keeps (p ∷ ps) i k db h =
      warn_keeps ps i k (notify_users env contract_expiry (expiry_of p.id) days none hr_ids db).1
        (users_keep env contract_expiry days none refl hr_ids (expiry_of p.id) i k db h)

  warn_told : (ps : List Personnel) (db : Db) → AllTold ps (warn_of settings env hr_ids ps db).1
  unfolding warn_of
  warn_told [] db = tt
  warn_told (p ∷ ps) db =
      let next = (notify_users env contract_expiry (expiry_of p.id) days none hr_ids db).1 in
      (
        All-map hr_ids (λ id h. warn_keeps ps id (expiry_of p.id) next h)
            (users_notified env contract_expiry days none refl hr_ids (expiry_of p.id) db),
        warn_told ps next,
      )

  warn_again :
      (ps : List Personnel) (db : Db) → AllTold ps db → warn_of settings env hr_ids ps db ≡ (0, db)
  unfolding warn_of
  warn_again [] db h = refl
  warn_again (p ∷ ps) db h =
      rw (users_again env contract_expiry days none refl hr_ids (expiry_of p.id) db h.0)
        (rw (warn_again ps db h.1) refl)

  warn_read : (ps : List Personnel) (db : Db) → read (warn_of settings env hr_ids ps db).1 ≡ read db
  unfolding warn_of
  warn_read [] db = refl
  warn_read (p ∷ ps) db =
      warn_read ps (notify_users env contract_expiry (expiry_of p.id) days none hr_ids db).1
      ∙ users_read env contract_expiry days none refl hr_ids (expiry_of p.id) db

active_hr_ids-read : (db db' : Db) → read db' ≡ read db → active_hr_ids db' ≡ active_hr_ids db
unfolding active_hr_ids
active_hr_ids-read db db' e = rw (ap (λ x. x.0) e) refl

expiring-read :
    (settings : SweepSettings) (env : Env) (db db' : Db)
    → read db' ≡ read db
    → select (is_expiring settings env db') db'.personnel
      ≡ select (is_expiring settings env db) db.personnel
unfolding is_expiring has_open_record
expiring-read settings env db db' e = rw (ap (λ x. x.1) e, ap (λ x. x.2) e) refl

-- The sweep over the contracts that end can be run again at once: the second run notifies nobody
-- and changes nothing.
pub expiry_sweep_again :
    (settings : SweepSettings) (env : Env) (db : Db)
    → run_contract_expiry_sweep settings env (run_contract_expiry_sweep settings env db).1
      ≡ (0, (run_contract_expiry_sweep settings env db).1)
unfolding run_contract_expiry_sweep
expiry_sweep_again settings env db =
    let hr_ids = active_hr_ids db in
    let ps = select (is_expiring settings env db) db.personnel in
    let next = (warn_of settings env hr_ids ps db).1 in
    let same = warn_read settings env hr_ids ps db in
    ap
      (λ ids. warn_of settings env ids (select (is_expiring settings env next) next.personnel) next)
      (active_hr_ids-read db next same)
    ∙ ap (λ qs. warn_of settings env hr_ids qs next) (expiring-read settings env db next same)
    ∙ warn_again settings env hr_ids ps next (warn_told settings env hr_ids ps db)
