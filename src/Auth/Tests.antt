-- ===== src/Auth/Tests.antt =====
-- A login, a refresh and the replay of its token: the session methods of app/auth/service.py on
-- concrete rows.
use arima_executive_os.Common.{
  ℕ, ◌==◌, ◌≡◌, ◌≤◌, refl, Option, none, some, true, false, List, [], ◌∷◌, String, str_eq, ok, err,
  if◌then◌else◌, arith,
}
use arima_executive_os.Auth.Tokens.{
  TokenType, refresh, TokenClaims, Decoded, seconds, Settings, Library, invalid_token, token_reuse,
  type_name, claims_of, decode_token,
}
use arima_executive_os.Auth.Repository.{
  Store, TokenPair, find_usable, mark_rotated, revoke_where, has_active_family, issue_in,
  issue_token_pair,
}
use arima_executive_os.Auth.Sessions.{
  exchange, refresh_claims, refresh_token_pair, logout, logout_claims, get_current_user,
}
use arima_executive_os.Auth.Rows.{live_count}
use arima_executive_os.Auth.Calls.{
  SessionCall, logs_in, refreshes, logs_out, logs_out_all, after, run_session_calls,
}
use arima_executive_os.Auth.Single.{IsTokenStore, run_session_calls-IsTokenStore}
use arima_executive_os.Auth.Replay.{refresh-again}
use arima_executive_os.Auth.Limiter.{LimitRequest, enforce, run_requests, rate_limited}
use arima_executive_os.Auth.Counts.{enforce-counts}
use arima_executive_os.Auth.Signing.{decode_token-signed_value, refresh_goes_on}

abbrev settings : Settings
settings = record {
  jwt_secret_key = "secret";
  jwt_algorithm = "HS256";
  jwt_issuer = "arima";
  jwt_audience = "clients";
  access_lifetime = 900000000;
  persistent_lifetime = 2592000000000;
  session_lifetime = 43200000000;
}

abbrev texts : ℕ → String
texts n = if n == 5 then "5" else if n == 10 then "10" else if n == 12 then "12" else "other"

abbrev ids : String → Option ℕ
ids s =
    if str_eq s "5"
    then some 5
    else if str_eq s "10"
    then some 10
    else if str_eq s "12"
    then some 12
    else none

-- The first refresh token, read until it expires.
abbrev stored : Decoded
stored = record {
  sub = "5";
  type = "refresh";
  iat = seconds 1;
  exp = seconds 43201;
  jti = "12";
  sid = some "10";
}

abbrev library : Library
library = record {
  show_id = texts;
  parse_id = ids;
  encode = λ secret algorithm p. p.jti;
  decode =
      λ now secret algorithm issuer audience token. if str_eq token "12" then some stored else none;
}

abbrev start : Store
start = record {
  users = record { id = 5; is_active = true; is_verified = true } ∷ [];
  sessions = [];
  events = [];
  audits = [];
  next_id = 10;
}

abbrev login : TokenPair × Store
login = issue_token_pair library settings 5 false none none 1500000 start

abbrev first_claims : TokenClaims
first_claims = record {
  subject = 5;
  token_type = refresh;
  issued_at = 1000000;
  expires_at = 43201000000;
  jti = 12;
  session_id = some 10;
}

abbrev next : TokenPair × Store
next = issue_in library settings 5 false 10 (some 12) 2000000 (record login.1 {
  sessions = mark_rotated 12 2000000 login.1.sessions;
  events = record { event_type = "session_refreshed"; user_id = 5 } ∷ [];
})

read_at : (now : ℕ) → decode_token library settings "12" refresh now ≡ ok first_claims
unfolding decode_token claims_of
read_at now = refl

refreshed : refresh_token_pair library settings "12" 2000000 login.1 ≡ (ok next.0, next.1)
unfolding refresh_token_pair decode_token claims_of refresh_claims find_usable exchange
    issue_token_pair issue_in mark_rotated
refreshed = refl

start-IsTokenStore : IsTokenStore start
unfolding live_count
start-IsTokenStore = record {
  known = tt;
  single_family = λ f. omega arith;
  single_token = λ j. omega arith;
}

abbrev calls : List (ℕ × SessionCall)
calls =
    (1500000, logs_in 5 false)
    ∷ (2000000, refreshes "12")
    ∷ (3000000, logs_out "12")
    ∷ (4000000, logs_in 5 true)
    ∷ (5000000, logs_out_all 5 "user_logout_all")
    ∷ []

run_session_calls-IsTokenStore_example :
    IsTokenStore (run_session_calls library settings calls start)
run_session_calls-IsTokenStore_example =
    run_session_calls-IsTokenStore library settings calls start start-IsTokenStore

login-IsTokenStore : IsTokenStore login.1
unfolding run_session_calls issue_token_pair after
login-IsTokenStore =
    run_session_calls-IsTokenStore library settings ((1500000, logs_in 5 false) ∷ []) start
      start-IsTokenStore

refresh-again_example :
    let (answer, s2) =
      refresh_token_pair library settings "12" 5000000
        (run_session_calls library settings ((4000000, logs_in 5 true) ∷ []) next.1) in
    (answer ≡ err token_reuse)
    × ((later : ℕ) (ds : List (ℕ × SessionCall))
        → has_active_family next.0.family_id later (run_session_calls library settings ds s2)
          ≡ false)
refresh-again_example =
    refresh-again library settings "12" first_claims 2000000 5000000 login.1 next.0 next.1
      ((4000000, logs_in 5 true) ∷ []) login-IsTokenStore (read_at 2000000) (read_at 5000000)
      refreshed

-- The claims of the first refresh token, before they are signed.
abbrev claims : TokenClaims
claims = record first_claims { issued_at = 1500000; expires_at = 43201500000 }

decode_token-signed_value_example :
    (decode_token library settings "12" refresh 2000000 ≡ ok first_claims)
    × ((other : TokenType)
        → str_eq "refresh" (type_name other) ≡ false
        → decode_token library settings "12" other 2000000 ≡ err invalid_token)
decode_token-signed_value_example =
    decode_token-signed_value library settings claims 2000000 (λ i a b e. refl) (omega arith)
      (omega arith) refl refl refl refl

refresh_goes_on_example :
    let (pair, s1) =
      issue_in library settings 5 false 10 none 1500000 (record start { next_id = 11 }) in
    (n : TokenPair) × (s2 : Store) × (refresh_token_pair library settings pair.refresh_token 2000000
        s1
      ≡ (ok n, s2))
    × (n.family_id ≡ 10)
unfolding issue_in
refresh_goes_on_example =
    refresh_goes_on library settings 5 false 10 none 1500000 2000000 (record start { next_id = 11 })
      (record { id = 5; is_active = true; is_verified = true }) refl refl refl (omega arith)
      (omega arith) (λ i a b e. refl) refl refl refl

-- The access tokens of a family stop with its sessions.
signed_out :
    get_current_user 5 (some 10) 6000000 (logout library settings "12" 5000000 next.1).1
    ≡ err invalid_token
unfolding get_current_user logout logout_claims decode_token claims_of find_usable mark_rotated
    revoke_where has_active_family issue_in issue_token_pair
signed_out = refl

-- Two calls a minute.
abbrev attempt : ℕ → LimitRequest
attempt now = record { scope = "login"; key = "10.0.0.1"; limit = 2; window = 60; now = now }

-- The second call falls into the next window, with the fourth.
enforce-counts_example :
    ((enforce
        (λ s. s)
        none
        (attempt 75)
        (run_requests (λ s. s) (attempt 50 ∷ attempt 61 ∷ attempt 59 ∷ attempt 70 ∷ []) [])).0
      ≡ err (rate_limited 45))
    × (1 ≤ 45)
    × (45 ≤ 60)
enforce-counts_example =
    enforce-counts (λ s. s) (attempt 50 ∷ attempt 61 ∷ attempt 59 ∷ attempt 70 ∷ []) (attempt 75)
