-- ===== src/Auth/Sessions.antt =====
-- The session methods of `AuthenticationService` in app/auth/service.py over the rows of refresh
-- tokens. A call reads the clock once.
use arima_executive_os.Common.{
  ℕ, ◌==◌, Bool, ◌&&◌, not, Option, none, some, String, if◌then◌else◌, find_first, any_of, Result,
  ok, err,
}
use arima_executive_os.Auth.Tokens.{
  refresh, TokenClaims, Settings, Library, AuthError, invalid_token, token_reuse, inactive_user,
  email_not_verified, decode_token,
}
use arima_executive_os.Auth.Repository.{
  RefreshTokenSession, AuthUser, Store, TokenPair, find_usable, mark_rotated, revoke_family,
  revoke_all_for_user, has_active_family, list_active_for_user, record_event, record_audit,
  issue_token_pair,
}

abbrev pub find_auth_user : ℕ → Store → Option AuthUser
find_auth_user id s = find_first (λ u. u.id == id) s.users

abbrev pub check_auth_user : Option AuthUser → Result AuthError AuthUser
check_auth_user none = err invalid_token
check_auth_user (some u) =
    if not u.is_active
    then err inactive_user
    else if not u.is_verified
    then err email_not_verified
    else ok u

abbrev pub is_bound : TokenClaims → ℕ → RefreshTokenSession → Bool
is_bound c family r = r.user_id == c.subject && r.family_id == family

abbrev pub consumed : ℕ → ℕ → Store → Store
consumed jti now s = record s { sessions = mark_rotated jti now s.sessions }

-- The exchange of a row that was found: `s` is what a rollback goes back to.
unfoldable pub exchange :
    Library
    → Settings
    → TokenClaims
    → ℕ
    → RefreshTokenSession
    → ℕ
    → Store
    → Result AuthError TokenPair × Store
exchange lib set c family r now s =
    if not (is_bound c family r)
    then (err invalid_token, s)
    else elim (check_auth_user (find_auth_user c.subject s)) [
      | err e ↦ (err e, s)
      | ok u ↦
          let (pair, s') =
            issue_token_pair lib set u.id r.is_persistent (some r.family_id) (some r.token_jti) now
              (record_event "session_refreshed" u.id (consumed c.jti now s)) in
          (ok pair, s')
    ]

-- A token that is not active any more: the whole family goes.
abbrev pub reuse_detected : TokenClaims → ℕ → ℕ → Store → Store
reuse_detected c family now s =
    record_event "refresh_token_reuse_detected" c.subject
      (revoke_family family now "token_reuse_detected" s)

unfoldable pub refresh_claims :
    Library → Settings → TokenClaims → ℕ → ℕ → Store → Result AuthError TokenPair × Store
refresh_claims lib set c family now s = elim (find_usable c.jti now s.sessions) [
  | none ↦ (err token_reuse, reuse_detected c family now s)
  | some r ↦ exchange lib set c family r now s
]

unfoldable pub refresh_token_pair :
    Library → Settings → String → ℕ → Store → Result AuthError TokenPair × Store
refresh_token_pair lib set token now s = elim (decode_token lib set token refresh now) [
  | err e ↦ (err e, s)
  | ok c ↦ elim c.session_id [
    | none ↦ (err invalid_token, s)
    | some family ↦ refresh_claims lib set c family now s
  ]
]

unfoldable pub logout_claims : TokenClaims → ℕ → ℕ → Store → Result AuthError (Unit {0}) × Store
logout_claims c family now s = elim (find_usable c.jti now s.sessions) [
  | none ↦ (ok tt, revoke_family family now "logout_reused_token" s)
  | some r ↦ if not (is_bound c family r) then (err invalid_token, s) else (
    ok tt,
    record_audit r.user_id (
        record_event "logout_succeeded" r.user_id
          (revoke_family r.family_id now "user_logout" (consumed c.jti now s))),
  )
]

unfoldable pub logout :
    Library → Settings → String → ℕ → Store → Result AuthError (Unit {0}) × Store
logout lib set token now s = elim (decode_token lib set token refresh now) [
  | err e ↦ (err e, s)
  | ok c ↦ elim c.session_id [
    | none ↦ (err invalid_token, s)
    | some family ↦ logout_claims c family now s
  ]
]

unfoldable pub logout_all : ℕ → ℕ → String → Store → Store
logout_all user now reason s =
    record_audit user
      (record_event "logout_all_succeeded" user (revoke_all_for_user user now reason s))

unfoldable pub revoke_session : ℕ → ℕ → ℕ → Store → Result AuthError (Unit {0}) × Store
revoke_session user family now s =
    if not (any_of (λ r. r.family_id == family) (list_active_for_user user now s))
    then (err invalid_token, s)
    else (
      ok tt,
      record_event "session_revoked" user (revoke_family family now "user_revoked_session" s),
    )

-- `session_id is not None and not await has_active_family(…)`
unfoldable pub get_current_user : ℕ → Option ℕ → ℕ → Store → Result AuthError AuthUser
unfolding has_active_family
get_current_user user session_id now s = elim (find_auth_user user s) [
  | none ↦ err invalid_token
  | some u ↦ elim session_id [
    | none ↦ ok u
    | some family ↦ if has_active_family family now s then ok u else err invalid_token
  ]
]
