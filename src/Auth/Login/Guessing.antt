-- ===== src/Auth/Login/Guessing.antt =====
-- What someone who guesses passwords learns from `login`.
use nafas_hr.Prelude.{
  ◌≡◌, refl, sym, ap, ◌∙◌, ℕ, ◌<◌, false, Option, none, some, List, [], ◌∷◌, String, All, arith,
}
use nafas_hr.Model.Values.{Env, Result, err, http, account_is_locked, bad_credentials}
use nafas_hr.Model.Tables.{User, LoginAttempt, DedupKey, account_locked}
use nafas_hr.Model.Store.{Db}
use nafas_hr.Audit.{log_event}
use nafas_hr.Notifications.{notify_one, notify_once, active_hr_ids}
use nafas_hr.Auth.Attempts.{
  AuthSettings, attempt_of, locked_until, record_failure, notify_each, notify_hr_of_lockout,
}
use nafas_hr.Auth.Tokens.{TokenOps}
use nafas_hr.Auth.Login.{
  LoginResponse, user_named, log_failure, report_lock, fail_login, login, login_as,
}

-- The columns that a failed login reads of the tables: the users and the counts.
abbrev UsersAndCounts : Type 0
UsersAndCounts = List User × List LoginAttempt

abbrev read : Db → UsersAndCounts
read db = (db.users, db.login_attempts)

notify_once-read :
    (env : Env) (id : ℕ) (key : DedupKey) (db : Db)
    → read (notify_once env id account_locked key 1 none db).1 ≡ read db
unfolding notify_once notify_one
notify_once-read env id key db = ground arith

notify_each-read :
    (env : Env) (key : DedupKey) (ids : List ℕ) (db : Db)
    → read (notify_each env key ids db) ≡ read db
unfolding notify_each
notify_each-read env key [] db = refl
notify_each-read env key (id ∷ ids) db =
    notify_each-read env key ids (notify_once env id account_locked key 1 none db).1
    ∙ notify_once-read env id key db

report_lock-read :
    (env : Env) (u : String) (id : Option ℕ) (until : Option ℕ) (db : Db)
    → read (report_lock env u id until db) ≡ read db
unfolding report_lock log_failure notify_hr_of_lockout log_event active_hr_ids
report_lock-read env u id none db = refl
report_lock-read env u none (some t) db = notify_each-read env _ (active_hr_ids db) db
report_lock-read env u (some i) (some t) db =
    notify_each-read env _ (active_hr_ids db) (log_failure env (some i) "account_locked" _ db)

log_failure-read :
    (env : Env) (id : Option ℕ) (event : String) (detail : _) (db : Db)
    → read (log_failure env id event detail db) ≡ read db
unfolding log_failure log_event
log_failure-read env none event detail db = refl
log_failure-read env (some i) event detail db = refl

-- A failed login counts, and leaves the users alone.
fail_login-read :
    (s : AuthSettings) (env : Env) (u : String) (id : Option ℕ) (db : Db)
    → read (fail_login s env u id db) ≡ (db.users, (record_failure s env.now u db.login_attempts).1)
unfolding fail_login
fail_login-read s env u id db =
    report_lock-read env u id _ _ ∙ log_failure-read env id "login_failed" [] _

user_named-users :
    (u : String) (db db' : Db) → db'.users ≡ db.users → user_named u db' ≡ user_named u db
unfolding user_named
user_named-users u db db' e = rw e refl

module _ {Token : Type 0} (settings : AuthSettings) (ops : TokenOps Token) where
  -- Logins under one name with these passwords, each with what the request reads from outside.
  abbrev pub try_logins :
      String → List (Env × String) → Db → List (Result (LoginResponse Token)) × Db
  try_logins u [] db = ([], db)
  try_logins u ((env, password) ∷ more) db =
      let done = login settings ops env u password db in
      let rest = try_logins u more done.1 in (done.0 ∷ rest.0, rest.1)

  login_locked :
      (u : String) (a : LoginAttempt) (until : ℕ) (db : Db)
      → attempt_of u db.login_attempts ≡ some a
      → a.locked_until ≡ some until
      → (env : Env) (password : String) → env.now < until
      → login settings ops env u password db ≡ (err (http 429 account_is_locked), db)
  unfolding login locked_until
  login_locked u a until db h l env password p = ground arith

  -- While the lock of a name runs, every login under it is refused as locked, with the right
  -- password too, and nothing changes: neither the count nor the end of the lock.
  pub locked_out :
      (u : String) (a : LoginAttempt) (until : ℕ) (db : Db)
      → attempt_of u db.login_attempts ≡ some a
      → a.locked_until ≡ some until
      → (tries : List (Env × String)) → All (λ t. t.0.now < until) tries
      → All (λ r. r ≡ err (http 429 account_is_locked)) (try_logins u tries db).0
        × ((try_logins u tries db).1 ≡ db)
  locked_out u a until db h l [] p = (tt, refl)
  locked_out u a until db h l ((env, password) ∷ tries) p =
      let rest = locked_out u a until db h l tries p.1 in
      rw (login_locked u a until db h l env password p.0) ((refl, rest.0), rest.1)

  -- No password here is that of the user, where there is one.
  abbrev pub NeverRight : Option User → List (Env × String) → Type 0
  NeverRight none tries = Unit
  NeverRight (some user) tries = All (λ t. ops.verify t.1 user.password_hash ≡ false) tries

  -- The answers to wrong guesses, from the counts alone.
  abbrev answer_to : Option ℕ → Result (LoginResponse Token)
  answer_to none = err (http 401 bad_credentials)
  answer_to (some _) = err (http 429 account_is_locked)

  abbrev counts_after : ℕ → String → Option ℕ → List LoginAttempt → List LoginAttempt
  counts_after now u none rows = (record_failure settings now u rows).1
  counts_after now u (some _) rows = rows

  abbrev guess_answers :
      String → List (Env × String) → List LoginAttempt → List (Result (LoginResponse Token))
  guess_answers u [] rows = []
  guess_answers u ((env, password) ∷ tries) rows =
      let lock = locked_until env.now rows u in
      answer_to lock ∷ guess_answers u tries (counts_after env.now u lock rows)

  wrong_guess :
      (env : Env) (u password : String) (o : Option User) (db : Db)
      → user_named u db ≡ o
      → NeverRight o ((env, password) ∷ [])
      → ((login settings ops env u password db).0
          ≡ answer_to (locked_until env.now db.login_attempts u))
        × (read (login settings ops env u password db).1 ≡ (
          db.users,
          counts_after env.now u (locked_until env.now db.login_attempts u) db.login_attempts,
        ))
  unfolding login login_as
  wrong_guess env u password none db e w = ground (arith, fail_login-read settings env u none db)
  wrong_guess env u password (some user) db e w =
      ground (arith, fail_login-read settings env u (some user.id) db, w.0)

  NeverRight-head :
      (o : Option User) (env : Env) (password : String) (tries : List (Env × String))
      → NeverRight o ((env, password) ∷ tries)
      → NeverRight o ((env, password) ∷ [])
  NeverRight-head none env password tries w = tt
  NeverRight-head (some user) env password tries w = (w.0, tt)

  NeverRight-tail :
      (o : Option User) (env : Env) (password : String) (tries : List (Env × String))
      → NeverRight o ((env, password) ∷ tries)
      → NeverRight o tries
  NeverRight-tail none env password tries w = tt
  NeverRight-tail (some user) env password tries w = w.1

  guesses_from_counts :
      (u : String) (tries : List (Env × String)) (o : Option User) (db : Db)
      → user_named u db ≡ o
      → NeverRight o tries
      → (try_logins u tries db).0 ≡ guess_answers u tries db.login_attempts
  guesses_from_counts u [] o db e w = refl
  guesses_from_counts u ((env, password) ∷ tries) o db e w =
      let next = (login settings ops env u password db).1 in
      let guess = wrong_guess env u password o db e (NeverRight-head o env password tries w) in
      let named = user_named-users u db next (ap (λ x. x.0) guess.1) in
      let rest =
        guesses_from_counts u tries o next (named ∙ e) (NeverRight-tail o env password tries w) in
      λ i. guess.0 i ∷ (rest ∙ ap (λ x. guess_answers u tries x.1) guess.1) i

  -- Someone who does not know the password cannot find out by logins whether a name exists: if no
  -- password tried is right, then the answers are the same over two databases with the same counts
  -- of failures, whatever users they hold.
  pub guesses_tell_nothing :
      (u : String) (tries : List (Env × String)) (db db' : Db)
      → db.login_attempts ≡ db'.login_attempts
      → NeverRight (user_named u db) tries
      → NeverRight (user_named u db') tries
      → (try_logins u tries db).0 ≡ (try_logins u tries db').0
  guesses_tell_nothing u tries db db' e w w' =
      guesses_from_counts u tries (user_named u db) db refl w
      ∙ ap (guess_answers u tries) e
      ∙ sym (guesses_from_counts u tries (user_named u db') db' refl w')
