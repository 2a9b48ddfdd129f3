-- ===== src/Auth/Tests.antt =====
-- The theorems about logins and sessions, on the small company.
use text.Mathlib.Text.{◌==◌ as str_eq}
use nafas_hr.Prelude.{
  arith, ℕ, ◌≡◌, refl, true, false, none, some, Option, List, [], ◌∷◌, is_some, ltb, leb, ◌&&◌,
  String, if◌then◌else◌,
}
use nafas_hr.Model.Enums.{employee}
use nafas_hr.Model.Values.{Env, err, http, bad_token, is_ok}
use nafas_hr.Model.Tables.{User, LoginAttempt, AuthSession}
use nafas_hr.Model.Store.{Db}
use nafas_hr.Samples.{company, account, as_user, weak_digest}
use nafas_hr.Auth.Attempts.{AuthSettings, attempt_of, locked_until, purge_stale}
use nafas_hr.Auth.Attempts.Locks.{failures, locks_at_limit}
use nafas_hr.Auth.Attempts.Purge.{answers, purge_unobserved}
use nafas_hr.Auth.Sessions.{
  active_sessions, session_of, rotate_session, replace_session, create_session, mark_rotated,
}
use nafas_hr.Auth.Sessions.Reuse.{is_rotated, is_reused, reuse_ends_all}
use nafas_hr.Auth.Sessions.Spent.{exchange, close_all, do_deeds, SessionDeed, exchanged_once}
use nafas_hr.Auth.Tokens.{Claims, TokenOps, access}
use nafas_hr.Auth.Login.{
  LoginResponse, login, login_as, user_named, user_at, issue_login_response, refresh,
  change_password, has_username, with_password, create_refresh_token, create_access_token,
  get_current_user,
}
use nafas_hr.Auth.Login.Guessing.{try_logins, guesses_tell_nothing}
use nafas_hr.Auth.Login.Renewal.{login_refreshes, new_password_ends_tokens}

abbrev usual : AuthSettings
usual = record {
  login_max_failed_attempts = 5;
  login_lockout_minutes = 15;
  login_attempt_window_minutes = 15;
  refresh_token_expire_days = 7;
  access_token_expire_minutes = 60;
}

-- Tokens that are their claims, and are read from the moment when they were made until they expire, and passwords that are their own hashes.
abbrev bare : TokenOps Claims
bare = record {
  encode = λ c. c;
  decode = λ now c. if leb c.iat now && ltb now c.exp then some c else none;
  hash = λ salt p. p;
  verify = λ p h. str_eq p h;
  lower = λ s. s;
}

abbrev at_moment : ℕ → ℕ → Env
at_moment now token = record {
  now = now;
  today = 10;
  token = token;
  digest = weak_digest;
  channels = [];
}

locks_example :
    is_some
      (locked_until 1400 (failures usual "mina" (1000 ∷ 1100 ∷ 1200 ∷ 1300 ∷ 1400 ∷ []) []) "mina")
    ≡ true
unfolding attempt_of
locks_example =
    locks_at_limit usual "mina" 1000 (1100 ∷ 1200 ∷ 1300 ∷ 1400 ∷ []) [] none_yet
      (
        omega arith,
        omega arith,
        (omega arith, omega arith, (omega arith, omega arith, (omega arith, omega arith, tt))),
      )
      (omega arith) (omega arith) (omega arith)
  where
    none_yet : attempt_of "mina" [] ≡ none
    none_yet = refl

-- A row of an old failure.
abbrev old_attempt : LoginAttempt
old_attempt = record {
  username = "mina";
  failed_count = 3;
  first_failed_at = 100;
  last_failed_at = 200;
  locked_until = none;
}

purge_example :
    answers usual 5000 "mina" (purge_stale usual 4000 (old_attempt ∷ []))
    ≡ answers usual 5000 "mina" (old_attempt ∷ [])
unfolding attempt_of
purge_example = purge_unobserved usual 4000 5000 "mina" (old_attempt ∷ []) (omega arith) (refl, tt)

-- A session that was opened at the moment 1000, and one that is already replaced.
abbrev session : ℕ → Option ℕ → AuthSession
session jti rotated_at = record {
  id = jti;
  user_id = 6;
  jti = jti;
  expires_at = 605800;
  rotated_at = rotated_at;
  replaced_by_jti = none;
  revoked_at = none;
  last_used_at = some 1000;
}

abbrev with_session : Option ℕ → Db
with_session rotated_at = record (company []) { auth_sessions = session 1 rotated_at ∷ [] }

reuse_example :
    active_sessions 6000 6
      (rotate_session usual (at_moment 5000 9) 6 1 (with_session (some 2000))).1.auth_sessions
    ≡ []
unfolding rotate_session session_of
reuse_example = reuse_ends_all usual (at_moment 5000 9) 6 1 6000 (with_session (some 2000)) refused
  where
    refused :
        is_reused (rotate_session usual (at_moment 5000 9) 6 1 (with_session (some 2000))).0 ≡ true
    refused = refl

abbrev later_deeds : List SessionDeed
later_deeds = exchange usual (at_moment 3000 8) 6 9 ∷ close_all 3500 7 ∷ []

once_example :
    is_rotated
      (rotate_session usual (at_moment 4000 7) 6 1 (
        do_deeds later_deeds (rotate_session usual (at_moment 2000 9) 6 1 (with_session none)).1)).0
    ≡ false
unfolding rotate_session session_of replace_session create_session mark_rotated
once_example =
    exchanged_once usual (at_moment 2000 9) 6 1 (with_session none) refl refl later_deeds
      (refl, (tt, tt)) usual (at_moment 4000 7) 6

-- The tables with a user whose name and password are these.
abbrev mina : User
mina = record (account 6 employee (some 1)) { username = "mina"; password_hash = "blue" }

abbrev with_mina : Db
with_mina = record (company []) { users = mina ∷ [] }

abbrev guesses : List (Env × String)
guesses = (at_moment 2000 9, "red") ∷ (at_moment 2010 9, "green") ∷ []

guesses_example :
    (try_logins usual bare "mina" guesses (company [])).0
    ≡ (try_logins usual bare "mina" guesses with_mina).0
unfolding user_named
guesses_example =
    guesses_tell_nothing usual bare "mina" guesses (company []) with_mina refl tt (refl, (refl, tt))

abbrev logged_in : LoginResponse Claims
logged_in = record {
  access_token = create_access_token usual bare (at_moment 2000 9) mina;
  refresh_cookie = create_refresh_token usual bare (at_moment 2000 9) mina 9;
  role = employee;
  must_change_password = false;
}

refreshes_example :
    is_ok
      (refresh usual bare
        (at_moment 3000 8)
        (some logged_in.refresh_cookie)
        (login usual bare (at_moment 2000 9) "mina" "blue" with_mina).1).0
    ≡ true
unfolding user_named user_at login login_as issue_login_response locked_until attempt_of
    create_session
refreshes_example =
    login_refreshes usual bare (λ c now p q. ground arith) (at_moment 2000 9) (at_moment 3000 8)
      "mina" "blue" logged_in with_mina
      (login usual bare (at_moment 2000 9) "mina" "blue" with_mina).1 found (omega arith)
      (omega arith) refl
  where
    found : (u : User) → user_named "mina" with_mina ≡ some u → user_at u.id with_mina ≡ some u
    found u h = ground arith

-- What the user holds after the change of the password.
abbrev changed_response : LoginResponse Claims
changed_response = record {
  access_token =
      create_access_token usual bare (at_moment 2000 9)
        (record mina { password_hash = "sea-green"; token_version = 1 });
  refresh_cookie =
      create_refresh_token usual bare (at_moment 2000 9)
        (record mina { password_hash = "sea-green"; token_version = 1 }) 9;
  role = employee;
  must_change_password = false;
}

abbrev old_token : Claims
old_token = record {
  sub = 6;
  role = employee;
  tv = 0;
  type_ = access;
  iat = 1000;
  exp = 4600;
  jti = none;
}

abbrev after_change : Db
after_change =
    (change_password usual bare (at_moment 2000 9) "blue" "sea-green" (as_user 6 employee)
      with_mina).1

new_password_example :
    (refresh usual bare (at_moment 3000 8) (some old_token) after_change
      ≡ (err (http 401 bad_token), after_change))
    × (get_current_user usual bare (at_moment 3000 8) true (some old_token) after_change
        ≡ err (http 401 bad_token))
unfolding user_at change_password has_username issue_login_response with_password create_session
new_password_example =
    new_password_ends_tokens usual bare (at_moment 2000 9) (at_moment 3000 8) "blue" "sea-green"
      (as_user 6 employee) mina changed_response with_mina after_change refl refl true old_token
      old_token refl refl (omega arith)
