-- ===== src/Auth.antt =====
-- Signed tokens and the sessions that refresh tokens keep: app/auth/tokens.py, the session methods
-- of `AuthenticationService` in app/auth/service.py, and
-- app/database/repositories/refresh_token.py; the rate limiter of app/auth/security.py.
pub mod Tokens
pub mod Repository
pub mod Sessions
pub mod Rows
pub mod Calls
pub mod Dead
pub mod Single
pub mod Exchange
pub mod Replay
pub mod Signing
pub mod Limiter
pub mod Counts
pub mod Tests
