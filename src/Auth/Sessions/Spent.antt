-- ===== src/Auth/Sessions/Spent.antt =====
-- A refresh token that has been exchanged, and what happens to the sessions afterwards.
use nafas_hr.Prelude.{
  ◌≡◌, refl, sym, ap, ◌∙◌, inl, inr, ℕ, ◌==◌, Bool, true, false, ◌||◌, Option, none, some, List, [],
  ◌∷◌, map, is_some, Bool-cases, ==_iff, arith,
}
use nafas_hr.Model.Values.{Env}
use nafas_hr.Model.Tables.{AuthSession}
use nafas_hr.Model.Store.{Db}
use nafas_hr.Auth.Attempts.{AuthSettings}
use nafas_hr.Auth.Sessions.{
  session_of, revoke_all_for_user, revoke_session, mark_rotated, rotate_session, replace_session,
  create_session,
}
use nafas_hr.Auth.Sessions.Reuse.{is_rotated, is_exchangeable, rotate-is_rotated}

-- The session has been replaced or revoked.
abbrev pub is_spent : Option AuthSession → Bool
is_spent none = false
is_spent (some s) = is_some s.rotated_at || is_some s.revoked_at

spent-not_exchangeable :
    (now user_id : ℕ) (o : Option AuthSession)
    → is_spent o ≡ true
    → is_exchangeable now user_id o ≡ false
spent-not_exchangeable now user_id none h = refl
spent-not_exchangeable now user_id (some s) h = ground arith

-- Rows that are changed in place keep their `jti` and stay spent.
session_of-map :
    (f : AuthSession → AuthSession) (jti : ℕ) (rows : List AuthSession)
    → ((s : AuthSession) → (f s).jti ≡ s.jti)
    → ((s : AuthSession) → is_spent (some s) ≡ true → is_spent (some (f s)) ≡ true)
    → is_spent (session_of jti rows) ≡ true
    → is_spent (session_of jti (map f rows)) ≡ true
unfolding session_of
session_of-map f jti [] same more h = h
session_of-map f jti (s ∷ rows) same more h =
    ground (arith, session_of-map f jti rows same more, same s, more s)

mark_rotated-spent :
    (now old new_jti jti : ℕ) (rows : List AuthSession)
    → is_spent (session_of jti rows) ≡ true
    → is_spent (session_of jti (mark_rotated now old new_jti rows)) ≡ true
unfolding mark_rotated
mark_rotated-spent now old new_jti jti rows h =
    session_of-map _ jti rows (λ s. ground arith) (λ s k. ground arith) h

revoke_session-spent :
    (now old jti : ℕ) (rows : List AuthSession)
    → is_spent (session_of jti rows) ≡ true
    → is_spent (session_of jti (revoke_session now old rows)) ≡ true
unfolding revoke_session
revoke_session-spent now old jti rows h =
    session_of-map _ jti rows (λ s. ground arith) (λ s k. ground arith) h

revoke_all-spent :
    (now user_id jti : ℕ) (rows : List AuthSession)
    → is_spent (session_of jti rows) ≡ true
    → is_spent (session_of jti (revoke_all_for_user now user_id rows)) ≡ true
unfolding revoke_all_for_user
revoke_all-spent now user_id jti rows h =
    session_of-map _ jti rows (λ s. ground arith) (λ s k. ground arith) h

-- The random number of the request is the `jti` of no session.
abbrev pub IsFresh : Env → Db → Type 0
IsFresh env db = session_of env.token db.auth_sessions ≡ none

create_session-spent :
    (settings : AuthSettings) (env : Env) (user_id jti : ℕ) (db : Db)
    → IsFresh env db
    → is_spent (session_of jti db.auth_sessions) ≡ true
    → is_spent (session_of jti (create_session settings env user_id db).1.auth_sessions) ≡ true
unfolding create_session session_of
create_session-spent settings env user_id jti db fresh h = elim (Bool-cases (env.token == jti)) [
  | inl e ↦ absurd e
  | inr e ↦ ground arith
]
  where
    absurd :
        (env.token == jti) ≡ true
        → is_spent (session_of jti (create_session settings env user_id db).1.auth_sessions) ≡ true
    absurd e = ground (arith, ap (λ t. session_of t db.auth_sessions) ((==_iff env.token jti).0 e))

replace_session-spent :
    (settings : AuthSettings) (env : Env) (user_id old jti : ℕ) (db : Db)
    → IsFresh env db
    → is_spent (session_of jti db.auth_sessions) ≡ true
    → is_spent (session_of jti (replace_session settings env user_id old db).1.auth_sessions) ≡ true
unfolding replace_session
replace_session-spent settings env user_id old jti db fresh h =
    mark_rotated-spent env.now old (create_session settings env user_id db).0 jti
      (create_session settings env user_id db).1.auth_sessions
      (create_session-spent settings env user_id jti db fresh h)

rotate_session-spent :
    (settings : AuthSettings) (env : Env) (user_id old jti : ℕ) (db : Db)
    → IsFresh env db
    → is_spent (session_of jti db.auth_sessions) ≡ true
    → is_spent (session_of jti (rotate_session settings env user_id old db).1.auth_sessions) ≡ true
unfolding rotate_session
rotate_session-spent settings env user_id old jti db fresh h = ground (
  arith,
  revoke_all-spent env.now user_id jti db.auth_sessions,
  replace_session-spent settings env user_id old jti db fresh,
)

-- What requests do to the sessions. Other requests do not touch them.
pub data SessionDeed : Type 0 where
  open_session : AuthSettings → Env → ℕ → SessionDeed
  exchange : AuthSettings → Env → ℕ → ℕ → SessionDeed
  close_session : ℕ → ℕ → SessionDeed
  close_all : ℕ → ℕ → SessionDeed

abbrev pub do_deed : SessionDeed → Db → Db
do_deed (open_session settings env user_id) db = (create_session settings env user_id db).1
do_deed (exchange settings env user_id jti) db = (rotate_session settings env user_id jti db).1
do_deed (close_session now jti) db = record db {
  auth_sessions = revoke_session now jti db.auth_sessions;
}
do_deed (close_all now user_id) db = record db {
  auth_sessions = revoke_all_for_user now user_id db.auth_sessions;
}

abbrev pub do_deeds : List SessionDeed → Db → Db
do_deeds [] db = db
do_deeds (d ∷ ds) db = do_deeds ds (do_deed d db)

-- The random numbers that a deed draws are new.
abbrev pub DeedIsFresh : SessionDeed → Db → Type 0
DeedIsFresh (open_session settings env user_id) db = IsFresh env db
DeedIsFresh (exchange settings env user_id jti) db = IsFresh env db
DeedIsFresh (close_session now jti) db = Unit
DeedIsFresh (close_all now user_id) db = Unit

abbrev pub AllFresh : List SessionDeed → Db → Type 0
AllFresh [] db = Unit
AllFresh (d ∷ ds) db = DeedIsFresh d db × AllFresh ds (do_deed d db)

deed-spent :
    (d : SessionDeed) (jti : ℕ) (db : Db)
    → DeedIsFresh d db
    → is_spent (session_of jti db.auth_sessions) ≡ true
    → is_spent (session_of jti (do_deed d db).auth_sessions) ≡ true
deed-spent (open_session s env u) jti db f h = create_session-spent s env u jti db f h
deed-spent (exchange s env u old) jti db f h = rotate_session-spent s env u old jti db f h
deed-spent (close_session now old) jti db f h = revoke_session-spent now old jti db.auth_sessions h
deed-spent (close_all now u) jti db f h = revoke_all-spent now u jti db.auth_sessions h

deeds-spent :
    (ds : List SessionDeed) (jti : ℕ) (db : Db)
    → AllFresh ds db
    → is_spent (session_of jti db.auth_sessions) ≡ true
    → is_spent (session_of jti (do_deeds ds db).auth_sessions) ≡ true
deeds-spent [] jti db f h = h
deeds-spent (d ∷ ds) jti db f h = deeds-spent ds jti (do_deed d db) f.1 (deed-spent d jti db f.0 h)

mark_rotated-marks :
    (now user_id jti new_jti : ℕ) (rows : List AuthSession)
    → is_exchangeable now user_id (session_of jti rows) ≡ true
    → is_spent (session_of jti (mark_rotated now jti new_jti rows)) ≡ true
unfolding mark_rotated session_of
mark_rotated-marks now user_id jti new_jti [] h = ground arith
mark_rotated-marks now user_id jti new_jti (s ∷ rows) h =
    ground (arith, mark_rotated-marks now user_id jti new_jti rows)

pub fresh-differs :
    (env : Env) (now user_id jti : ℕ) (db : Db)
    → IsFresh env db
    → is_exchangeable now user_id (session_of jti db.auth_sessions) ≡ true
    → (env.token == jti) ≡ false
fresh-differs env now user_id jti db fresh h = elim (Bool-cases (env.token == jti)) [
  | inl e ↦ ground (arith, ap (λ t. session_of t db.auth_sessions) ((==_iff env.token jti).0 e))
  | inr e ↦ e
]

replaced_spent :
    (settings : AuthSettings) (env : Env) (user_id jti : ℕ) (db : Db)
    → IsFresh env db
    → is_exchangeable env.now user_id (session_of jti db.auth_sessions) ≡ true
    → is_spent (session_of jti (replace_session settings env user_id jti db).1.auth_sessions) ≡ true
unfolding replace_session create_session mark_rotated session_of
replaced_spent settings env user_id jti db fresh h = ground (
  arith,
  fresh-differs env env.now user_id jti db fresh h,
  mark_rotated-marks env.now user_id jti env.token db.auth_sessions h,
)

-- An exchanged token is spent.
exchange-spent :
    (settings : AuthSettings) (env : Env) (user_id jti : ℕ) (db : Db)
    → IsFresh env db
    → is_exchangeable env.now user_id (session_of jti db.auth_sessions) ≡ true
    → is_spent (session_of jti (rotate_session settings env user_id jti db).1.auth_sessions) ≡ true
unfolding rotate_session
exchange-spent settings env user_id jti db fresh h =
    ground (arith, replaced_spent settings env user_id jti db fresh h)

-- A refresh token is exchanged for a new one at most once: after an exchange, and whatever
-- sessions are then opened, exchanged or revoked, as long as each new `jti` is one that no session
-- has, the same token gets none in exchange again, from whomever it comes.
pub exchanged_once :
    (settings : AuthSettings) (env : Env) (user_id jti : ℕ) (db : Db)
    → IsFresh env db
    → is_rotated (rotate_session settings env user_id jti db).0 ≡ true
    → (ds : List SessionDeed) → AllFresh ds (rotate_session settings env user_id jti db).1
    → (settings' : AuthSettings) (env' : Env) (user_id' : ℕ)
    → is_rotated
        (rotate_session settings' env' user_id' jti
          (do_deeds ds (rotate_session settings env user_id jti db).1)).0
      ≡ false
exchanged_once settings env user_id jti db fresh h ds f settings' env' user_id' =
    let after = do_deeds ds (rotate_session settings env user_id jti db).1 in
    rotate-is_rotated settings' env' user_id' jti after
    ∙ spent-not_exchangeable env'.now user_id' (session_of jti after.auth_sessions) (
        deeds-spent ds jti (rotate_session settings env user_id jti db).1 f (
          exchange-spent settings env user_id jti db fresh
            (sym (rotate-is_rotated settings env user_id jti db) ∙ h)))
