-- ===== src/Auth/Calls.antt =====
-- Sequences of calls of the session methods in app/auth/service.py, and the choices of tokens whose
-- rows stay dead through all of them.
use arima_executive_os.Common.{
  ℕ, ◌≡◌, refl, ◌==◌, Bool, inl, inr, Bool-cases, Option-cases, Result-cases, none, some, List, [],
  ◌∷◌, String, any_of,
}
use arima_executive_os.Auth.Tokens.{refresh, TokenClaims, Settings, Library, decode_token}
use arima_executive_os.Auth.Repository.{
  RefreshTokenSession, Store, find_usable, revoke_where, mark_rotated, record_event, issue_in,
  issue_token_pair, list_active_for_user,
}
use arima_executive_os.Auth.Sessions.{
  find_auth_user, check_auth_user, is_bound, consumed, exchange, refresh_claims, refresh_token_pair,
  logout_claims, logout, logout_all, revoke_session,
}

-- A login ends in `issue_token_pair` without a family.
pub data SessionCall : Type 0 where
  logs_in : ℕ → Bool → SessionCall
  refreshes : String → SessionCall
  logs_out : String → SessionCall
  logs_out_all : ℕ → String → SessionCall
  revokes : ℕ → ℕ → SessionCall

unfoldable pub after : Library → Settings → ℕ → SessionCall → Store → Store
after lib set now (logs_in user remember_me) s =
    (issue_token_pair lib set user remember_me none none now s).1
after lib set now (refreshes token) s = (refresh_token_pair lib set token now s).1
after lib set now (logs_out token) s = (logout lib set token now s).1
after lib set now (logs_out_all user reason) s = logout_all user now reason s
after lib set now (revokes user family) s = (revoke_session user family now s).1

-- The calls with the times at which they are made.
unfoldable pub run_session_calls : Library → Settings → List (ℕ × SessionCall) → Store → Store
run_session_calls lib set [] s = s
run_session_calls lib set ((now, c) ∷ cs) s = run_session_calls lib set cs (after lib set now c s)

-- A property of the sessions that every update keeps, and every issue of tokens: for a login in a
-- new family, and for a refresh in the family of the live row that it has consumed.
pub record IsKept (P : Store → Type 0) : Type 1 where
  pub bare : (s s' : Store) → s'.sessions ≡ s.sessions → s'.next_id ≡ s.next_id → P s → P s'
  pub revoke :
      (p : RefreshTokenSession → Bool) (now : ℕ) (reason : String) (s : Store)
      → P s
      → P (record s { sessions = revoke_where p now reason s.sessions })
  pub consume : (jti now : ℕ) (s : Store) → P s → P (consumed jti now s)
  pub new_family :
      (lib : Library) (set : Settings) (user : ℕ) (remember_me : Bool) (now : ℕ) (s : Store)
      → P s
      → P (issue_token_pair lib set user remember_me none none now s).1
  pub rotate :
      (lib : Library) (set : Settings) (user : ℕ) (remember_me : Bool) (jti now : ℕ)
      (r : RefreshTokenSession) (s s' : Store)
      → find_usable jti now s.sessions ≡ some r
      → s'.sessions ≡ mark_rotated jti now s.sessions
      → s'.next_id ≡ s.next_id
      → P s
      → P (issue_in lib set user remember_me r.family_id (some r.token_jti) now s').1

module _ (P : Store → Type 0) (k : IsKept P) where
  exchange-kept :
      (lib : Library) (set : Settings) (c : TokenClaims) (family : ℕ) (r : RefreshTokenSession)
      (now : ℕ) (s : Store)
      → find_usable c.jti now s.sessions ≡ some r
      → P s
      → P (exchange lib set c family r now s).1
  unfolding exchange issue_token_pair
  exchange-kept lib set c family r now s e h = elim (Bool-cases (is_bound c family r)) [
    | inr b ↦ rw (b, exchange) h
    | inl b ↦ elim (Result-cases (check_auth_user (find_auth_user c.subject s))) [
      | inr (x, f) ↦ rw (b, f, exchange) h
      | inl (u, f) ↦
          rw (b, f, exchange)
            (k.rotate lib set u.id r.is_persistent c.jti now r s
              (record_event "session_refreshed" u.id (consumed c.jti now s)) e refl refl h)
    ]
  ]

  refresh_claims-kept :
      (lib : Library) (set : Settings) (c : TokenClaims) (family now : ℕ) (s : Store)
      → P s
      → P (refresh_claims lib set c family now s).1
  unfolding refresh_claims
  refresh_claims-kept lib set c family now s h =
      elim (Option-cases (find_usable c.jti now s.sessions)) [
        | inl e ↦
            rw (e, refresh_claims)
              (k.bare _ _ refl refl
                (k.revoke (λ r. r.family_id == family) now "token_reuse_detected" s h))
        | inr (r, e) ↦ rw (e, refresh_claims) (exchange-kept lib set c family r now s e h)
      ]

  refresh-kept :
      (lib : Library) (set : Settings) (token : String) (now : ℕ) (s : Store)
      → P s
      → P (refresh_token_pair lib set token now s).1
  unfolding refresh_token_pair
  refresh-kept lib set token now s h =
      elim (Result-cases (decode_token lib set token refresh now)) [
        | inr (x, e) ↦ rw (e, refresh_token_pair) h
        | inl (c, e) ↦ elim (Option-cases c.session_id) [
          | inl f ↦ rw (e, refresh_token_pair, f) h
          | inr (family, f) ↦
              rw (e, refresh_token_pair, f) (refresh_claims-kept lib set c family now s h)
        ]
      ]

  logout_claims-kept :
      (c : TokenClaims) (family now : ℕ) (s : Store) → P s → P (logout_claims c family now s).1
  unfolding logout_claims
  logout_claims-kept c family now s h = elim (Option-cases (find_usable c.jti now s.sessions)) [
    | inl e ↦
        rw (e, logout_claims) (k.revoke (λ r. r.family_id == family) now "logout_reused_token" s h)
    | inr (r, e) ↦ elim (Bool-cases (is_bound c family r)) [
      | inr b ↦ rw (e, logout_claims, b) h
      | inl b ↦
          rw (e, logout_claims, b)
            (k.bare _ _ refl refl (
              k.revoke (λ x. x.family_id == r.family_id) now "user_logout" (consumed c.jti now s)
                (k.consume c.jti now s h)))
    ]
  ]

  logout-kept :
      (lib : Library) (set : Settings) (token : String) (now : ℕ) (s : Store)
      → P s
      → P (logout lib set token now s).1
  unfolding logout
  logout-kept lib set token now s h = elim (Result-cases (decode_token lib set token refresh now)) [
    | inr (x, e) ↦ rw (e, logout) h
    | inl (c, e) ↦ elim (Option-cases c.session_id) [
      | inl f ↦ rw (e, logout, f) h
      | inr (family, f) ↦ rw (e, logout, f) (logout_claims-kept c family now s h)
    ]
  ]

  revoke_session-kept :
      (user family now : ℕ) (s : Store) → P s → P (revoke_session user family now s).1
  unfolding revoke_session
  revoke_session-kept user family now s h =
      elim (Bool-cases (any_of (λ r. r.family_id == family) (list_active_for_user user now s))) [
        | inr e ↦ rw (e, revoke_session) h
        | inl e ↦
            rw (e, revoke_session)
              (k.bare _ _ refl refl
                (k.revoke (λ r. r.family_id == family) now "user_revoked_session" s h))
      ]

  after-kept :
      (lib : Library) (set : Settings) (now : ℕ) (c : SessionCall) (s : Store)
      → P s
      → P (after lib set now c s)
  unfolding after logout_all
  after-kept lib set now (logs_in user remember_me) s h =
      k.new_family lib set user remember_me now s h
  after-kept lib set now (refreshes token) s h = refresh-kept lib set token now s h
  after-kept lib set now (logs_out token) s h = logout-kept lib set token now s h
  after-kept lib set now (logs_out_all user reason) s h =
      k.bare _ _ refl refl (k.revoke (λ r. r.user_id == user) now reason s h)
  after-kept lib set now (revokes user family) s h = revoke_session-kept user family now s h

  pub run_session_calls-kept :
      (lib : Library) (set : Settings) (cs : List (ℕ × SessionCall)) (s : Store)
      → P s
      → P (run_session_calls lib set cs s)
  unfolding run_session_calls
  run_session_calls-kept lib set [] s h = h
  run_session_calls-kept lib set ((now, c) ∷ cs) s h =
      run_session_calls-kept lib set cs (after lib set now c s) (after-kept lib set now c s h)
