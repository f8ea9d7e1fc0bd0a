-- ===== src/Auth/Replay.antt =====
-- A refresh token that is presented again to `refresh_token_pair` of app/auth/service.py.
use arima_executive_os.Common.{
  ℕ, ◌+◌, ◌<◌, ◌≡◌, refl, ap, sym, ◌∙◌, false, none, some, List, String, arith, ok, err,
}
use arima_executive_os.Auth.Tokens.{
  refresh, TokenClaims, Settings, Library, token_reuse, decode_token,
}
use arima_executive_os.Auth.Repository.{
  Store, TokenPair, find_usable, issue_in, issue_token_pair, has_active_family,
}
use arima_executive_os.Auth.Sessions.{reuse_detected, refresh_claims, refresh_token_pair}
use arima_executive_os.Auth.Rows.{by_jti, by_family, revoke_where-family, active-dead}
use arima_executive_os.Auth.Calls.{SessionCall, run_session_calls, IsKept, run_session_calls-kept}
use arima_executive_os.Auth.Dead.{by_family-IsClosed, StaysDead, StaysDead-IsKept}
use arima_executive_os.Auth.Single.{IsTokenStore, found_known}
use arima_executive_os.Auth.Exchange.{IsExchanged, refresh_ok, exchanged-StaysDead, not_usable}

abbrev IsGivenOut : ℕ → Store → Type 0
IsGivenOut f s = f < s.next_id

IsGivenOut-IsKept : (f : ℕ) → IsKept (IsGivenOut f)
unfolding issue_token_pair issue_in
IsGivenOut-IsKept f = record {
  bare = λ s s' e n h. rw n h;
  revoke = λ p now reason s h. h;
  consume = λ jti now s h. h;
  new_family = λ lib set user remember_me now s h. omega (arith, h);
  rotate = λ lib set user remember_me jti now r s s' e rows n h. omega (arith, n, h);
}

refresh_claims-reuse :
    (lib : Library) (set : Settings) (token : String) (c : TokenClaims) (family now : ℕ) (s : Store)
    → decode_token lib set token refresh now ≡ ok c
    → c.session_id ≡ some family
    → find_usable c.jti now s.sessions ≡ none
    → refresh_token_pair lib set token now s ≡ (err token_reuse, reuse_detected c family now s)
unfolding refresh_token_pair refresh_claims
refresh_claims-reuse lib set token c family now s d e f =
    rw (d, refresh_token_pair, e, f, refresh_claims) refl

revoked-StaysDead :
    (c : TokenClaims) (family now : ℕ) (s : Store)
    → IsGivenOut family s
    → StaysDead (by_family family) (reuse_detected c family now s)
revoked-StaysDead c family now s h = record {
  dead = revoke_where-family family now "token_reuse_detected" s.sessions;
  closed = by_family-IsClosed family s.next_id h;
}

dead_family :
    (lib : Library) (set : Settings) (family later : ℕ) (ds : List (ℕ × SessionCall)) (s : Store)
    → StaysDead (by_family family) s
    → has_active_family family later (run_session_calls lib set ds s) ≡ false
unfolding has_active_family
dead_family lib set family later ds s h =
    active-dead family later (run_session_calls lib set ds s).sessions
      (run_session_calls-kept (StaysDead (by_family family)) (StaysDead-IsKept (by_family family))
        lib set ds s h).dead

issued_family :
    (lib : Library) (set : Settings) (c : TokenClaims) (now : ℕ) (s : Store) (pair : TokenPair)
    (s1 : Store) (x : IsExchanged lib set c now s pair s1)
    → (pair.family_id ≡ x.family) × (s1.next_id ≡ s.next_id + 2)
unfolding issue_in
issued_family lib set c now s pair s1 x =
    (ap (λ z. z.0.family_id) (sym x.issued) ∙ x.same_family, ap (λ z. z.1.next_id) (sym x.issued))

-- A refresh token that has been exchanged is never accepted again: after any calls, presenting it
-- while it still decodes to the same claims is answered as a reuse, and from then on, after any
-- further calls at any times, the family of the pair that it was exchanged for is not active: where
-- at first no family and no token has two live rows and every identifier of a row has been given
-- out.
pub refresh-again :
    (lib : Library) (set : Settings) (token : String) (c : TokenClaims) (now now' : ℕ) (s : Store)
    (pair : TokenPair) (s1 : Store) (cs : List (ℕ × SessionCall))
    → IsTokenStore s
    → decode_token lib set token refresh now ≡ ok c
    → decode_token lib set token refresh now' ≡ ok c
    → refresh_token_pair lib set token now s ≡ (ok pair, s1)
    → let (answer, s2) = refresh_token_pair lib set token now' (run_session_calls lib set cs s1) in
      (answer ≡ err token_reuse)
      × ((later : ℕ) (ds : List (ℕ × SessionCall))
          → has_active_family pair.family_id later (run_session_calls lib set ds s2) ≡ false)
refresh-again lib set token c now now' s pair s1 cs h d d' e =
    let x = refresh_ok lib set token c now s pair s1 d e in
    let s2 = run_session_calls lib set cs s1 in
    let dead =
      run_session_calls-kept _ (StaysDead-IsKept (by_jti c.jti)) lib set cs s1
        (exchanged-StaysDead lib set c now s pair s1 h x) in
    let (same, later) = issued_family lib set c now s pair s1 x in
    let (_, given) = found_known s.next_id c.jti now s.sessions x.row h.known x.row_eq in
    let known : IsGivenOut x.family s1 = rw (← x.same_family) (omega (arith, given, later)) in
    let old = run_session_calls-kept _ (IsGivenOut-IsKept x.family) lib set cs s1 known in
    let answer =
      refresh_claims-reuse lib set token c x.family now' s2 d' x.family_eq
        (not_usable c.jti now' s2.sessions dead.dead) in
    rw (answer, same)
      (
        refl,
        λ at ds.
            dead_family lib set x.family at ds (reuse_detected c x.family now' s2)
              (revoked-StaysDead c x.family now' s2 old),
      )
