-- ===== src/Auth.antt =====
-- Who a request comes from: the count of failed logins, the sessions behind the refresh tokens, and
-- the endpoints of backend/app/api/routers/auth.py.
pub mod Attempts
pub mod Sessions
pub mod Tokens
pub mod Login
mod Tests
