-- ===== src/Auth/Login.antt =====
-- backend/app/api/routers/auth.py, `get_current_user` of backend/app/api/deps.py.
-- An endpoint here may commit and then raise, so it gives the tables
-- that are committed beside its answer. The agent and address of the caller are left out, and the
-- limits per minute, which a library keeps.
pub mod Guessing
pub mod Renewal
use text.Mathlib.Text.{◌==◌ as str_eq, find?}
use nafas_hr.Prelude.{
  ℕ, ◌+◌, ◌==◌, Bool, true, false, not, ◌&&◌, ◌||◌, Option, none, some, List, [], ◌∷◌, String, map,
  first, length, is_some, is_none, is_just, leb, if◌then◌else◌,
}
use nafas_hr.Model.Enums.{UserRole}
use nafas_hr.Model.Values.{
  Env, num, Detail, http, Error, Result, ok, err, account_is_locked, bad_credentials,
  inactive_account, bad_token, wrong_password, same_password, password_has_username,
  password_must_change, session_not_found,
}
use nafas_hr.Model.Tables.{User, CurrentUser, AuthSession}
use nafas_hr.Model.Store.{Db}
use nafas_hr.Audit.{log_event}
use nafas_hr.Scoring.Words.{codes}
use nafas_hr.Auth.Attempts.{
  AuthSettings, minutes, locked_until, record_failure, clear_failures, notify_hr_of_lockout,
}
use nafas_hr.Auth.Sessions.{
  days, create_session, revoke_at, revoke_session, revoke_all_for_user, Rotation, rotated,
  within_grace, reused, rotate_session,
}
use nafas_hr.Auth.Tokens.{
  TokenType, access, refresh_type, Claims, TokenOps, is_refresh, access_payload, refresh_payload,
}

-- The answer of a login; the refresh token goes into the cookie.
pub record LoginResponse (Token : Type 0) : Type 0 where
  pub access_token : Token
  pub refresh_cookie : Token
  pub role : UserRole
  pub must_change_password : Bool

-- An answer, and the tables that are committed with it.
abbrev pub Reply : Type 0 → Type 0
Reply A = Result A × Db

unfoldable pub user_named : String → Db → Option User
user_named username db = first (λ u. str_eq u.username username) db.users

-- `db.get(User, id)`.
unfoldable pub user_at : ℕ → Db → Option User
user_at id db = first (λ u. u.id == id) db.users

-- The row of a user is written back.
unfoldable pub put_user : User → Db → Db
put_user v db = record db { users = map (λ u. if u.id == v.id then v else u) db.users }

-- `user_id is not None`: the failure of a known user is logged.
unfoldable pub log_failure : Env → Option ℕ → String → Detail → Db → Db
log_failure env none event detail db = db
log_failure env (some id) event detail db = log_event env id event none none (some detail) db

-- What `_fail` does where this attempt locked the name.
unfoldable pub report_lock : Env → String → Option ℕ → Option ℕ → Db → Db
report_lock env username user_id none db = db
report_lock env username user_id (some until) db =
    notify_hr_of_lockout env username until
      (log_failure env user_id "account_locked" (("until", num until) ∷ []) db)

-- `_fail` of `login`.
unfoldable pub fail_login : AuthSettings → Env → String → Option ℕ → Db → Db
fail_login settings env username user_id db =
    let counted = record_failure settings env.now username db.login_attempts in
    report_lock env username user_id counted.0
      (log_failure env user_id "login_failed" [] (record db { login_attempts = counted.1 }))

module _ {Token : Type 0} (settings : AuthSettings) (ops : TokenOps Token) where
  -- `create_access_token`.
  unfoldable pub create_access_token : Env → User → Token
  create_access_token env user = ops.encode (access_payload settings env user)

  -- `create_refresh_token`.
  unfoldable pub create_refresh_token : Env → User → ℕ → Token
  create_refresh_token env user jti = ops.encode (refresh_payload settings env user jti)

  -- `_issue_login_response`.
  unfoldable pub issue_login_response : Env → User → Db → Reply (LoginResponse Token)
  issue_login_response env user db =
      let made = create_session settings env user.id db in
      (
        ok (record {
          access_token = create_access_token env user;
          refresh_cookie = create_refresh_token env user made.0;
          role = user.role;
          must_change_password = user.must_change_password;
        }),
        made.1,
      )

  -- `login` for a user who is known.
  unfoldable pub login_as : Env → String → String → User → Db → Reply (LoginResponse Token)
  login_as env username password user db =
      if not (ops.verify password user.password_hash)
      then (err (http 401 bad_credentials), fail_login settings env username (some user.id) db)
      else if not user.is_active
      then (err (http 403 inactive_account), db)
      else issue_login_response env user (
          log_event env user.id "login_succeeded" none none (some [])
            (record db { login_attempts = clear_failures username db.login_attempts }))

  -- `login`.
  unfoldable pub login : Env → String → String → Db → Reply (LoginResponse Token)
  login env username password db = elim (locked_until env.now db.login_attempts username) [
    | some until ↦ (err (http 429 account_is_locked), db)
    | none ↦ elim (user_named username db) [
      | none ↦ (err (http 401 bad_credentials), fail_login settings env username none db)
      | some user ↦ login_as env username password user db
    ]
  ]

  -- The user whom the claims are about, where that user is active and the token of the present
  -- version.
  unfoldable pub holder_of : Claims → Db → Option User
  holder_of claims db = elim (user_at claims.sub db) [
    | none ↦ none
    | some u ↦ if not u.is_active || not (claims.tv == u.token_version) then none else some u
  ]

  -- `get_current_user`; `is_exempt` tells that the path is one of
  -- `_FORCED_PASSWORD_CHANGE_EXEMPT_PATHS`.
  unfoldable pub get_current_user : Env → Bool → Option Token → Db → Result CurrentUser
  get_current_user env is_exempt credentials db = elim credentials [
    | none ↦ err (http 401 bad_token)
    | some token ↦ elim (ops.decode env.now token) [
      | none ↦ err (http 401 bad_token)
      | some claims ↦
          if is_refresh claims.type_ then err (http 401 bad_token) else elim (holder_of claims db) [
            | none ↦ err (http 401 bad_token)
            | some u ↦
                if u.must_change_password && not is_exempt
                then err (http 403 password_must_change)
                else ok (record { id = u.id; role = u.role; personnel_id = u.personnel_id })
          ]
    ]
  ]

  -- The `jti` of a refresh token that decodes.
  unfoldable pub refresh_claims : Env → Option Token → Option (ℕ × Claims)
  refresh_claims env cookie = elim cookie [
    | none ↦ none
    | some token ↦ elim (ops.decode env.now token) [
      | none ↦ none
      | some claims ↦ elim claims.jti [
        | none ↦ none
        | some jti ↦ if is_refresh claims.type_ then some (jti, claims) else none
      ]
    ]
  ]

  -- How `refresh` answers after the rotation: the access token, and the cookie where it changes.
  unfoldable pub answer_refresh : Env → User → Rotation → Result (Token × Option Token)
  answer_refresh env user (rotated jti) =
      ok (create_access_token env user, some (create_refresh_token env user jti))
  answer_refresh env user within_grace = ok (create_access_token env user, none)
  answer_refresh env user reused = err (http 401 bad_token)

  -- `refresh`.
  unfoldable pub refresh : Env → Option Token → Db → Reply (Token × Option Token)
  refresh env cookie db = elim (refresh_claims env cookie) [
    | none ↦ (err (http 401 bad_token), db)
    | some (jti, claims) ↦ elim (holder_of claims db) [
      | none ↦ (err (http 401 bad_token), db)
      | some user ↦
          (let turned = rotate_session settings env user.id jti db in
            (answer_refresh env user turned.0, turned.1))
    ]
  ]

  -- `logout`.
  unfoldable pub logout : Env → Option Token → Db → Db
  logout env cookie db = elim (refresh_claims env cookie) [
    | none ↦ db
    | some (jti, claims) ↦ record db { auth_sessions = revoke_session env.now jti db.auth_sessions }
  ]

  -- The user's name stands in the new password.
  unfoldable pub has_username : User → String → Bool
  has_username user password =
      leb 3 (length (codes user.username))
      && is_some (find? (ops.lower password) (ops.lower user.username))

  -- The user with the new password; older tokens carry the older version.
  unfoldable pub with_password : Env → String → User → User
  with_password env new_password user = record user {
    password_hash = ops.hash env.token new_password;
    token_version = user.token_version + 1;
    must_change_password = false;
  }

  -- `change_password`.
  unfoldable pub change_password :
      Env → String → String → CurrentUser → Db → Reply (LoginResponse Token)
  change_password env current_password new_password current_user db =
      elim (user_at current_user.id db) [
        | none ↦ (err (http 400 wrong_password), db)
        | some user ↦
            if not (ops.verify current_password user.password_hash)
            then (err (http 400 wrong_password), db)
            else if str_eq new_password current_password
            then (err (http 400 same_password), db)
            else if has_username user new_password
            then (err (http 400 password_has_username), db)
            else (let changed = with_password env new_password user in
                let written = put_user changed db in
                let revoked = record written {
                  auth_sessions = revoke_all_for_user env.now user.id written.auth_sessions;
                } in
                issue_login_response env changed
                  (log_event env user.id "password_changed_self" none none none revoked))
      ]

-- `revoke_my_session`.
unfoldable pub revoke_my_session : Env → ℕ → CurrentUser → Db → Result (Unit {0}) × Db
revoke_my_session env session_id current_user db =
    elim (first (λ s. s.id == session_id) db.auth_sessions) [
      | none ↦ (err (http 404 session_not_found), db)
      | some s ↦
          if not (s.user_id == current_user.id)
          then (err (http 404 session_not_found), db)
          else if is_none s.revoked_at
          then (
            ok tt,
            log_event env current_user.id "session_revoked" none none
                (some (("session_id", num s.id) ∷ []))
                (record db {
                  auth_sessions =
                      map (λ r. if r.id == session_id then revoke_at env.now r else r)
                        db.auth_sessions;
                }),
          )
          else (ok tt, db)
    ]
