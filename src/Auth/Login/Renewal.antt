-- ===== src/Auth/Login/Renewal.antt =====
-- Which tokens still open the door after a login and after a change of the password.
use nafas_hr.Prelude.{
  ◌≡◌, refl, sym, ap, ◌∙◌, ℕ, ◌+◌, ◌==◌, ◌<◌, ◌≤◌, Bool, true, none, some, List, [], ◌∷◌, String,
  map, first, ==-refl, Option-cases, inl, inr, if◌then◌else◌, arith,
}
use nafas_hr.Model.Values.{Env, ok, err, http, bad_token, is_ok}
use nafas_hr.Model.Tables.{User, CurrentUser}
use nafas_hr.Model.Store.{Db}
use nafas_hr.Audit.{log_event}
use nafas_hr.Auth.Attempts.{AuthSettings, clear_failures}
use nafas_hr.Auth.Sessions.{days, session_of, create_session, revoke_all_for_user}
use nafas_hr.Auth.Sessions.Reuse.{is_exchangeable, rotate-is_rotated}
use nafas_hr.Auth.Tokens.{Claims, TokenOps, refresh_payload}
use nafas_hr.Auth.Login.{
  LoginResponse, user_named, user_at, put_user, create_refresh_token, issue_login_response, login,
  login_as, holder_of, get_current_user, refresh_claims, answer_refresh, refresh, with_password,
  change_password,
}

-- The user of the name is found by the id.
module _ {Token : Type 0} (settings : AuthSettings) (ops : TokenOps Token) where
  -- A token decodes to its claims from the moment when it was made until it expires, as PyJWT
  -- documents; one that was made in the future it refuses.
  abbrev pub Decodes : Type 0
  Decodes =
      (c : Claims) (now : ℕ) → c.iat ≤ now → now < c.exp → ops.decode now (ops.encode c) ≡ some c

  issued_claims :
      Decodes
      → (env env' : Env) (user : User) (jti : ℕ) → env.now ≤ env'.now
      → env'.now < env.now + days settings.refresh_token_expire_days
      → refresh_claims settings ops env' (some (create_refresh_token settings ops env user jti))
        ≡ some (jti, refresh_payload settings env user jti)
  unfolding refresh_claims create_refresh_token
  issued_claims law env env' user jti f t =
      rw (law (refresh_payload settings env user jti) env'.now f t, refresh_claims) refl

  -- A token that names an active session of its holder is taken.
  refresh_of_session :
      (env : Env) (token : Token) (jti : ℕ) (claims : Claims) (user : User) (db : Db)
      → refresh_claims settings ops env (some token) ≡ some (jti, claims)
      → holder_of settings ops claims db ≡ some user
      → is_exchangeable env.now user.id (session_of jti db.auth_sessions) ≡ true
      → is_ok (refresh settings ops env (some token) db).0 ≡ true
  unfolding refresh answer_refresh
  refresh_of_session env token jti claims user db c h x =
      ground (arith, rotate-is_rotated settings env user.id jti db)

  issued_holder :
      (env : Env) (user : User) (jti : ℕ) (db : Db)
      → user_at user.id db ≡ some user
      → user.is_active ≡ true
      → holder_of settings ops (refresh_payload settings env user jti) db ≡ some user
  unfolding holder_of
  issued_holder env user jti db u a = ground (arith, ==-refl user.token_version)

  issued_session :
      (env env' : Env) (user : User) (db : Db)
      → env'.now < env.now + days settings.refresh_token_expire_days
      → is_exchangeable env'.now user.id
          (session_of env.token (issue_login_response settings ops env user db).1.auth_sessions)
        ≡ true
  unfolding issue_login_response create_session session_of
  issued_session env env' user db t = ground arith

  issued_refreshes :
      Decodes
      → (env env' : Env) (user : User) (db : Db) → user_at user.id db ≡ some user
      → user.is_active ≡ true
      → env.now ≤ env'.now
      → env'.now < env.now + days settings.refresh_token_expire_days
      → is_ok
          (refresh settings ops env'
            (some (create_refresh_token settings ops env user env.token))
            (issue_login_response settings ops env user db).1).0
        ≡ true
  unfolding issue_login_response create_session user_at
  issued_refreshes law env env' user db u a f t =
      refresh_of_session env' _ env.token (refresh_payload settings env user env.token) user _
        (issued_claims law env env' user env.token f t) (issued_holder env user env.token _ u a)
        (issued_session env env' user db t)

  -- The tables at the moment in which the tokens are made.
  abbrev welcomed : Env → User → String → Db → Db
  welcomed env user username db =
      log_event env user.id "login_succeeded" none none (some [])
        (record db { login_attempts = clear_failures username db.login_attempts })

  login_ok :
      (env : Env) (username password : String) (user : User) (r : LoginResponse Token) (db db' : Db)
      → user_named username db ≡ some user
      → login settings ops env username password db ≡ (ok r, db')
      → (user.is_active ≡ true)
        × (issue_login_response settings ops env user (welcomed env user username db) ≡ (ok r, db'))
  unfolding login login_as
  login_ok env username password user r db db' e h = ground arith

  issued_cookie :
      (env : Env) (user : User) (r : LoginResponse Token) (db db' : Db)
      → issue_login_response settings ops env user db ≡ (ok r, db')
      → r.refresh_cookie ≡ create_refresh_token settings ops env user env.token
  unfolding issue_login_response create_session
  issued_cookie env user r db db' h = ground arith

  -- A login that succeeds hands out a refresh token that is taken until it expires: the refresh
  -- right after it, at any moment from the login until then, answers with a new token. It is supposed
  -- that the user of the name is found by the id, and that a token decodes to its claims from the
  -- moment when it was made until it expires.
  pub login_refreshes :
      Decodes
      → (env env' : Env) (username password : String) (r : LoginResponse Token) (db db' : Db)
      → ((u : User) → user_named username db ≡ some u → user_at u.id db ≡ some u)
      → env.now ≤ env'.now
      → env'.now < env.now + days settings.refresh_token_expire_days
      → login settings ops env username password db ≡ (ok r, db')
      → is_ok (refresh settings ops env' (some r.refresh_cookie) db').0 ≡ true
  unfolding login log_event user_at
  login_refreshes law env env' username password r db db' ids f t h =
      elim (Option-cases (user_named username db)) [
        | inl e ↦ ground arith
        | inr (user, e) ↦
            (let done = login_ok env username password user r db db' e h in
              rw
                (
                  issued_cookie env user r (welcomed env user username db) db' done.1,
                  sym (ap (λ x. x.1) done.1),
                )
                (issued_refreshes law env env' user (welcomed env user username db) (ids user e)
                  done.0 f t))
      ]

  -- A token without a holder opens nothing.
  old_token_refused :
      (env : Env) (is_exempt : Bool) (token : Token) (claims : Claims) (db : Db)
      → ops.decode env.now token ≡ some claims
      → holder_of settings ops claims db ≡ none
      → (refresh settings ops env (some token) db ≡ (err (http 401 bad_token), db))
        × (get_current_user settings ops env is_exempt (some token) db ≡ err (http 401 bad_token))
  unfolding refresh refresh_claims get_current_user
  old_token_refused env is_exempt token claims db d h = (ground arith, ground arith)

  -- The tables at the moment in which the tokens of a new password are made.
  abbrev rekeyed : Env → String → User → Db → Db
  rekeyed env new_password user db =
      let written = put_user (with_password settings ops env new_password user) db in
      log_event env user.id "password_changed_self" none none none (record written {
        auth_sessions = revoke_all_for_user env.now user.id written.auth_sessions;
      })

  change_ok :
      (env : Env) (current new_password : String) (by : CurrentUser) (user : User)
      → (r : LoginResponse Token) (db db' : Db) → user_at by.id db ≡ some user
      → change_password settings ops env current new_password by db ≡ (ok r, db')
      → issue_login_response settings ops env
          (with_password settings ops env new_password user)
          (rekeyed env new_password user db)
        ≡ (ok r, db')
  unfolding change_password
  change_ok env current new_password by user r db db' u h = ground arith

  user_at-put :
      (v : User) (users : List User) {user : User}
      → first (λ u. u.id == v.id) users ≡ some user
      → first (λ u. u.id == v.id) (map (λ u. if u.id == v.id then v else u) users) ≡ some v
  user_at-put v [] h = ground arith
  user_at-put v (u ∷ users) {user} h =
      ground (arith, user_at-put v users {user = user}, ==-refl v.id)

  user_at-same :
      (id : ℕ) (user : User) (db : Db) → user_at id db ≡ some user → user_at user.id db ≡ some user
  unfolding user_at
  user_at-same id user db h = ap (λ n. first (λ u. u.id == n) db.users) (found db.users h) ∙ h
    where
      found : (users : List User) → first (λ u. u.id == id) users ≡ some user → user.id ≡ id
      found [] k = ground arith
      found (u ∷ users) k = ground (arith, found users)

  rekeyed_holder :
      (env : Env) (new_password : String) (user : User) (claims : Claims) (db : Db)
      → user_at user.id db ≡ some user
      → claims.sub ≡ user.id
      → claims.tv ≤ user.token_version
      → (r : LoginResponse Token) (db' : Db)
      → issue_login_response settings ops env
          (with_password settings ops env new_password user)
          (rekeyed env new_password user db)
        ≡ (ok r, db')
      → holder_of settings ops claims db' ≡ none
  unfolding holder_of issue_login_response create_session log_event put_user user_at with_password
  rekeyed_holder env new_password user claims db u s v r db' h =
      ground (arith, user_at-put (with_password settings ops env new_password user) db.users u)

  -- After a user has changed the password, every token that carries the version of before, or an
  -- older one, is refused, whether it is a refresh token or an access token, on any path, and the
  -- refusal changes nothing.
  pub new_password_ends_tokens :
      (env env' : Env) (current new_password : String) (by : CurrentUser) (user : User)
      → (r : LoginResponse Token) (db db' : Db) → user_at by.id db ≡ some user
      → change_password settings ops env current new_password by db ≡ (ok r, db')
      → (is_exempt : Bool) (token : Token) (claims : Claims)
      → ops.decode env'.now token ≡ some claims
      → claims.sub ≡ user.id
      → claims.tv ≤ user.token_version
      → (refresh settings ops env' (some token) db' ≡ (err (http 401 bad_token), db'))
        × (get_current_user settings ops env' is_exempt (some token) db' ≡ err (http 401 bad_token))
  new_password_ends_tokens env env' current new_password by user r db db' u h is_exempt token claims
        d s v =
      old_token_refused env' is_exempt token claims db' d (
        rekeyed_holder env new_password user claims db (user_at-same by.id user db u) s v r db'
          (change_ok env current new_password by user r db db' u h))
