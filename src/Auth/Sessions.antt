-- ===== src/Auth/Sessions.antt =====
-- backend/app/services/sessions.py: the sessions behind the refresh tokens. The order in which
-- `active_sessions` lists them is left out.
pub mod Reuse
pub mod Successor
pub mod Spent
use nafas_hr.Prelude.{
  ℕ, ◌+◌, ◌*◌, ◌==◌, Bool, true, false, not, ◌&&◌, ◌||◌, Option, none, some, List, [], ◌∷◌, map,
  first, select, is_none, is_some, leb, ltb, if◌then◌else◌,
}
use nafas_hr.Model.Values.{Env}
use nafas_hr.Model.Tables.{AuthSession}
use nafas_hr.Model.Store.{Db}
use nafas_hr.Auth.Attempts.{AuthSettings}

-- `ROTATION_GRACE_SECONDS`.
abbrev pub rotation_grace_seconds : ℕ
rotation_grace_seconds = 60

-- `timedelta(days=n)`.
abbrev pub days : ℕ → ℕ
days n = n * 86400

-- `create_session`: the new `jti`, and the tables with the row.
unfoldable pub create_session : AuthSettings → Env → ℕ → Db → ℕ × Db
create_session settings env user_id db = (
  env.token,
  record db {
    auth_sessions =
        (record {
          id = db.next_id;
          user_id = user_id;
          jti = env.token;
          expires_at = env.now + days settings.refresh_token_expire_days;
          rotated_at = none;
          replaced_by_jti = none;
          revoked_at = none;
          last_used_at = some env.now;
        })
        ∷ db.auth_sessions;
    next_id = db.next_id + 1;
  },
)

-- What `active_sessions` selects.
abbrev pub is_active_session : ℕ → ℕ → AuthSession → Bool
is_active_session now user_id s =
    (s.user_id == user_id && is_none s.revoked_at) && (is_none s.rotated_at && ltb now s.expires_at)

-- `active_sessions`.
unfoldable pub active_sessions : ℕ → ℕ → List AuthSession → List AuthSession
active_sessions now user_id rows = select (is_active_session now user_id) rows

-- `select(AuthSession).where(AuthSession.jti == jti)`.
unfoldable pub session_of : ℕ → List AuthSession → Option AuthSession
session_of jti rows = first (λ s. s.jti == jti) rows

-- A session that is still usable is marked as revoked now.
abbrev pub revoke_at : ℕ → AuthSession → AuthSession
revoke_at now s = if is_none s.revoked_at then record s { revoked_at = some now } else s

-- `revoke_session`.
unfoldable pub revoke_session : ℕ → ℕ → List AuthSession → List AuthSession
revoke_session now jti rows = map (λ s. if s.jti == jti then revoke_at now s else s) rows

-- `revoke_all_for_user`.
unfoldable pub revoke_all_for_user : ℕ → ℕ → List AuthSession → List AuthSession
revoke_all_for_user now user_id rows =
    map (λ s. if s.user_id == user_id then revoke_at now s else s) rows

-- The row is marked as replaced.
unfoldable pub mark_rotated : ℕ → ℕ → ℕ → List AuthSession → List AuthSession
mark_rotated now jti new_jti rows =
    map
      (λ s.
        if s.jti == jti
        then record s { rotated_at = some now; replaced_by_jti = some new_jti }
        else s)
      rows

-- How `rotate_session` ends: with a new `jti`, with None, or with RefreshReuseError.
pub data Rotation : Type 0 where
  rotated : ℕ → Rotation
  within_grace reused : Rotation

-- The token of the row is not one of this user that is in force.
abbrev pub is_invalid : ℕ → ℕ → AuthSession → Bool
is_invalid now user_id s =
    not (s.user_id == user_id) || (is_some s.revoked_at || leb s.expires_at now)

-- All sessions of the user end, and the error is raised.
abbrev pub refuse_reuse : Env → ℕ → Db → Rotation × Db
refuse_reuse env user_id db =
    (reused, record db { auth_sessions = revoke_all_for_user env.now user_id db.auth_sessions })

-- The session gets its successor.
unfoldable pub replace_session : AuthSettings → Env → ℕ → ℕ → Db → Rotation × Db
replace_session settings env user_id jti db =
    let made = create_session settings env user_id db in
    (
      rotated made.0,
      record made.1 { auth_sessions = mark_rotated env.now jti made.0 made.1.auth_sessions },
    )

rotate_found : AuthSettings → Env → ℕ → ℕ → Db → AuthSession → Rotation × Db
rotate_found settings env user_id jti db s =
    if is_invalid env.now user_id s then refuse_reuse env user_id db else elim s.rotated_at [
      | none ↦ replace_session settings env user_id jti db
      | some t ↦
          if leb env.now (t + rotation_grace_seconds)
          then (within_grace, db)
          else refuse_reuse env user_id db
    ]

-- `rotate_session`. The state is given with an error too, since the endpoint commits it then.
unfoldable pub rotate_session : AuthSettings → Env → ℕ → ℕ → Db → Rotation × Db
unfolding rotate_found
rotate_session settings env user_id jti db = elim (session_of jti db.auth_sessions) [
  | none ↦ refuse_reuse env user_id db
  | some s ↦ rotate_found settings env user_id jti db s
]
