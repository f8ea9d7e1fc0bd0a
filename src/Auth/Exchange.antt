-- ===== src/Auth/Exchange.antt =====
-- What a successful `refresh_token_pair` of app/auth/service.py has done.
use arima_executive_os.Common.{
  ℕ, ◌+◌, ◌≤◌, ◌<◌, ◌≡◌, refl, ap, inl, inr, Bool-cases, Option-cases, Result-cases, none, some,
  List, [], ◌∷◌, String, arith, ok, Result,
}
use arima_executive_os.Auth.Tokens.{
  refresh, TokenClaims, Settings, Library, AuthError, decode_token,
}
use arima_executive_os.Auth.Repository.{
  RefreshTokenSession, Store, AuthUser, TokenPair, is_usable, find_usable, mark_rotated,
  record_event, issue_in, issue_token_pair,
}
use arima_executive_os.Auth.Sessions.{
  find_auth_user, check_auth_user, is_bound, consumed, exchange, refresh_claims, refresh_token_pair,
}
use arima_executive_os.Auth.Rows.{
  by_jti, AllDead, live_count, live_count-AllDead, mark_rotated-count,
}
use arima_executive_os.Auth.Dead.{by_jti-IsClosed, StaysDead}
use arima_executive_os.Auth.Single.{IsTokenStore, found_known}

-- What a successful refresh has found and left.
pub record IsExchanged (lib : Library) (set : Settings) (c : TokenClaims) (now : ℕ) (s : Store)
    (pair : TokenPair) (s1 : Store) : Type 0 where
  pub family : ℕ
  pub family_eq : c.session_id ≡ some family
  pub row : RefreshTokenSession
  pub row_eq : find_usable c.jti now s.sessions ≡ some row
  pub same_family : row.family_id ≡ family
  pub user : AuthUser
  pub user_eq : check_auth_user (find_auth_user c.subject s) ≡ ok user
  pub issued :
      issue_in lib set user.id row.is_persistent row.family_id
        (some row.token_jti)
        now
        (record_event "session_refreshed" user.id (consumed c.jti now s))
      ≡ (pair, s1)

abbrev the_pair : TokenPair × Store → Result AuthError TokenPair × Store
the_pair (x, z) = (ok x, z)

pair_ok :
    (p : TokenPair × Store) (pair : TokenPair) (s : Store)
    → (the_pair p) ≡ (ok pair, s)
    → p ≡ (pair, s)
pair_ok (x, z) pair s h = ground arith

exchange_ok :
    (lib : Library) (set : Settings) (c : TokenClaims) (family : ℕ) (r : RefreshTokenSession)
    (now : ℕ) (s : Store) (pair : TokenPair) (s1 : Store)
    → c.session_id ≡ some family
    → find_usable c.jti now s.sessions ≡ some r
    → exchange lib set c family r now s ≡ (ok pair, s1)
    → IsExchanged lib set c now s pair s1
unfolding exchange issue_token_pair
exchange_ok lib set c family r now s pair s1 e f h = elim (Bool-cases (is_bound c family r)) [
  | inr b ↦ absurd (ground arith)
  | inl b ↦ elim (Result-cases (check_auth_user (find_auth_user c.subject s))) [
    | inr (x, g) ↦ absurd (ground arith)
    | inl (u, g) ↦ record {
      family = family;
      family_eq = e;
      row = r;
      row_eq = f;
      same_family = ground arith;
      user = u;
      user_eq = g;
      issued =
          pair_ok
            (issue_in lib set u.id r.is_persistent r.family_id (some r.token_jti) now
              (record_event "session_refreshed" u.id (consumed c.jti now s)))
            pair s1 (ground (arith, h, b, g));
    }
  ]
]

pub refresh_ok :
    (lib : Library) (set : Settings) (token : String) (c : TokenClaims) (now : ℕ) (s : Store)
    (pair : TokenPair) (s1 : Store)
    → decode_token lib set token refresh now ≡ ok c
    → refresh_token_pair lib set token now s ≡ (ok pair, s1)
    → IsExchanged lib set c now s pair s1
unfolding refresh_token_pair refresh_claims
refresh_ok lib set token c now s pair s1 d h = elim (Option-cases c.session_id) [
  | inl e ↦ absurd (ground arith)
  | inr (family, e) ↦ elim (Option-cases (find_usable c.jti now s.sessions)) [
    | inl f ↦ absurd (ground arith)
    | inr (r, f) ↦ exchange_ok lib set c family r now s pair s1 e f (ground arith)
  ]
]

spent_count :
    (jti now : ℕ) (r : RefreshTokenSession) (rs : List RefreshTokenSession)
    → find_usable jti now rs ≡ some r
    → r.token_jti ≡ jti
    → live_count (by_jti jti) rs ≤ 1
    → live_count (by_jti jti) (mark_rotated jti now rs) ≡ 0
spent_count jti now r rs e same h =
    let count = mark_rotated-count (by_jti jti) jti now rs r e in ground (arith, count, same)

find_usable-jti :
    (jti now : ℕ) (rs : List RefreshTokenSession) (r : RefreshTokenSession)
    → find_usable jti now rs ≡ some r
    → r.token_jti ≡ jti
unfolding find_usable
find_usable-jti jti now [] r e = absurd (ground arith)
find_usable-jti jti now (x ∷ xs) r e = elim (Bool-cases (is_usable jti now x)) [
  | inl c ↦
      let row : x ≡ r = ground (arith, e, c) in
      let named : x.token_jti ≡ jti = ground (arith, c) in rw (← row) named
  | inr c ↦ find_usable-jti jti now xs r (ground (arith, e, c))
]

-- The exchanged token is spent.
pub exchanged-StaysDead :
    (lib : Library) (set : Settings) (c : TokenClaims) (now : ℕ) (s : Store) (pair : TokenPair)
    (s1 : Store)
    → IsTokenStore s
    → IsExchanged lib set c now s pair s1
    → StaysDead (by_jti c.jti) s1
unfolding issue_in
exchanged-StaysDead lib set c now s pair s1 h x =
    let named : x.row.token_jti ≡ c.jti = find_usable-jti c.jti now s.sessions x.row x.row_eq in
    let (old, _) = found_known s.next_id c.jti now s.sessions x.row h.known x.row_eq in
    let given : c.jti < s.next_id = rw (← named) old in
    let spent =
      live_count-AllDead (by_jti c.jti) (mark_rotated c.jti now s.sessions)
        (spent_count c.jti now x.row s.sessions x.row_eq named (h.single_token c.jti)) in
    rw (← ap (λ z. z.1) x.issued) (record {
      dead = (ground arith, spent);
      closed = by_jti-IsClosed c.jti (s.next_id + 2) (omega (arith, given));
    })

pub not_usable :
    (jti now : ℕ) (rs : List RefreshTokenSession)
    → AllDead (by_jti jti) rs
    → find_usable jti now rs ≡ none
unfolding find_usable
not_usable jti now [] h = refl
not_usable jti now (r ∷ rs) h = ground (arith, not_usable jti now rs h.1)
