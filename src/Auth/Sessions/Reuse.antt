-- ===== src/Auth/Sessions/Reuse.antt =====
-- What a refresh token can be exchanged for.
use nafas_hr.Prelude.{◌≡◌, refl, ℕ, Bool, true, false, Option, none, some, List, [], ◌∷◌, arith}
use nafas_hr.Model.Values.{Env}
use nafas_hr.Model.Tables.{AuthSession}
use nafas_hr.Model.Store.{Db}
use nafas_hr.Auth.Attempts.{AuthSettings}
use nafas_hr.Auth.Sessions.{
  active_sessions, is_active_session, session_of, revoke_all_for_user, Rotation, rotated, reused,
  rotate_session, replace_session,
}

abbrev pub is_rotated : Rotation → Bool
is_rotated (rotated _) = true
is_rotated _ = false

abbrev pub is_reused : Rotation → Bool
is_reused reused = true
is_reused _ = false

-- The token names a session of the user that is active.
abbrev pub is_exchangeable : ℕ → ℕ → Option AuthSession → Bool
is_exchangeable now user_id none = false
is_exchangeable now user_id (some s) = is_active_session now user_id s

pub revoke_all-none_active :
    (now user_id later : ℕ) (rows : List AuthSession)
    → active_sessions later user_id (revoke_all_for_user now user_id rows) ≡ []
unfolding active_sessions revoke_all_for_user
revoke_all-none_active now user_id later [] = refl
revoke_all-none_active now user_id later (s ∷ rows) =
    ground (arith, revoke_all-none_active now user_id later rows)

-- A token gets a new one in exchange exactly where it names an active session of the user.
pub rotate-is_rotated :
    (settings : AuthSettings) (env : Env) (user_id jti : ℕ) (db : Db)
    → is_rotated (rotate_session settings env user_id jti db).0
      ≡ is_exchangeable env.now user_id (session_of jti db.auth_sessions)
unfolding rotate_session replace_session
rotate-is_rotated settings env user_id jti db = ground arith

-- A token that is refused as reused leaves the user with no active session at any later moment.
pub reuse_ends_all :
    (settings : AuthSettings) (env : Env) (user_id jti later : ℕ) (db : Db)
    → is_reused (rotate_session settings env user_id jti db).0 ≡ true
    → active_sessions later user_id (rotate_session settings env user_id jti db).1.auth_sessions
      ≡ []
unfolding rotate_session replace_session
reuse_ends_all settings env user_id jti later db h =
    ground (arith, revoke_all-none_active env.now user_id later db.auth_sessions)
