-- ===== src/Auth/Sessions/Successor.antt =====
-- A rotated session has one successor.
use nafas_hr.Prelude.{◌≡◌, refl, ℕ, suc, ◌<◌, true, none, List, [], ◌∷◌, length, arith}
use nafas_hr.Model.Values.{Env}
use nafas_hr.Model.Tables.{AuthSession}
use nafas_hr.Model.Store.{Db}
use nafas_hr.Auth.Attempts.{AuthSettings}
use nafas_hr.Auth.Sessions.{
  active_sessions, session_of, mark_rotated, rotate_session, replace_session, create_session,
}
use nafas_hr.Auth.Sessions.Reuse.{is_rotated, is_exchangeable, rotate-is_rotated}
use nafas_hr.Auth.Sessions.Spent.{IsFresh, fresh-differs}

-- The column `jti` is unique.
abbrev pub OnePerJti : List AuthSession → Type 0
OnePerJti [] = Unit
OnePerJti (s ∷ rows) = (session_of s.jti rows ≡ none) × OnePerJti rows

mark_rotated-absent :
    (now jti new_jti : ℕ) (rows : List AuthSession)
    → session_of jti rows ≡ none
    → mark_rotated now jti new_jti rows ≡ rows
unfolding mark_rotated session_of
mark_rotated-absent now jti new_jti [] h = refl
mark_rotated-absent now jti new_jti (s ∷ rows) h =
    ground (arith, mark_rotated-absent now jti new_jti rows)

marked_one_fewer :
    (now user_id jti new_jti : ℕ) (rows : List AuthSession)
    → OnePerJti rows
    → is_exchangeable now user_id (session_of jti rows) ≡ true
    → suc (length (active_sessions now user_id (mark_rotated now jti new_jti rows)))
      ≡ length (active_sessions now user_id rows)
unfolding active_sessions session_of mark_rotated
marked_one_fewer now user_id jti new_jti [] one h = ground arith
marked_one_fewer now user_id jti new_jti (s ∷ rows) one h = ground (
  arith,
  marked_one_fewer now user_id jti new_jti rows one.1,
  mark_rotated-absent now s.jti new_jti rows one.0,
)

replaced_count :
    (settings : AuthSettings) (env : Env) (user_id jti : ℕ) (db : Db)
    → OnePerJti db.auth_sessions
    → IsFresh env db
    → 0 < settings.refresh_token_expire_days
    → is_exchangeable env.now user_id (session_of jti db.auth_sessions) ≡ true
    → length (
        active_sessions env.now user_id
          (replace_session settings env user_id jti db).1.auth_sessions)
      ≡ length (active_sessions env.now user_id db.auth_sessions)
unfolding replace_session create_session active_sessions mark_rotated
replaced_count settings env user_id jti db one fresh days h = ground (
  arith,
  marked_one_fewer env.now user_id jti env.token db.auth_sessions one h,
  fresh-differs env env.now user_id jti db fresh h,
)

-- The exchange of a token leaves the user with as many active sessions as before, where the `jti`
-- of every session is its own, the random number of the request is new, and tokens live for a day
-- at least.
pub exchange_keeps_count :
    (settings : AuthSettings) (env : Env) (user_id jti : ℕ) (db : Db)
    → OnePerJti db.auth_sessions
    → IsFresh env db
    → 0 < settings.refresh_token_expire_days
    → is_rotated (rotate_session settings env user_id jti db).0 ≡ true
    → length (
        active_sessions env.now user_id
          (rotate_session settings env user_id jti db).1.auth_sessions)
      ≡ length (active_sessions env.now user_id db.auth_sessions)
unfolding rotate_session
exchange_keeps_count settings env user_id jti db one fresh days h = ground (
  arith,
  replaced_count settings env user_id jti db one fresh days,
  rotate-is_rotated settings env user_id jti db,
)
