-- ===== src/Auth/Tokens.antt =====
-- backend/app/core/security.py: what the tokens state, and the libraries that make and read them.
use nafas_hr.Prelude.{ℕ, ◌+◌, Bool, true, false, Option, none, some, String}
use nafas_hr.Model.Enums.{UserRole}
use nafas_hr.Model.Values.{Env}
use nafas_hr.Model.Tables.{User}
use nafas_hr.Auth.Attempts.{AuthSettings, minutes}
use nafas_hr.Auth.Sessions.{days}

pub data TokenType : Type 0 where
  access refresh_type : TokenType

-- What a token states.
pub record Claims : Type 0 where
  pub sub : ℕ
  pub role : UserRole
  pub tv : ℕ
  pub type_ : TokenType
  pub iat : ℕ
  pub exp : ℕ
  pub jti : Option ℕ

-- PyJWT with the secret of the server, argon2, and `str.lower`. `decode` gives None where the
-- library raises, as `decode_token` does, and `verify` False; `hash` is given a random salt.
pub record TokenOps (Token : Type 0) : Type 0 where
  pub encode : Claims → Token
  pub decode : ℕ → Token → Option Claims
  pub hash : ℕ → String → String
  pub verify : String → String → Bool
  pub lower : String → String

abbrev pub is_refresh : TokenType → Bool
is_refresh access = false
is_refresh refresh_type = true

-- The payload of `_create_token`, as `create_access_token` asks for it.
abbrev pub access_payload : AuthSettings → Env → User → Claims
access_payload settings env user = record {
  sub = user.id;
  role = user.role;
  tv = user.token_version;
  type_ = access;
  iat = env.now;
  exp = env.now + minutes settings.access_token_expire_minutes;
  jti = none;
}

-- The payload of `_create_token`, as `create_refresh_token` asks for it.
abbrev pub refresh_payload : AuthSettings → Env → User → ℕ → Claims
refresh_payload settings env user jti = record {
  sub = user.id;
  role = user.role;
  tv = user.token_version;
  type_ = refresh_type;
  iat = env.now;
  exp = env.now + days settings.refresh_token_expire_days;
  jti = some jti;
}
