-- ===== src/Auth/Signing.antt =====
-- A token of app/auth/tokens.py that is created and decoded, and a session that goes on by its
-- newest refresh token.
use arima_executive_os.Common.{
  ℕ, ◌+◌, ◌*◌, ◌/◌, ◌<◌, ◌≤◌, ◌≡◌, refl, ==_refl, Bool, true, false, Option, none, some, String,
  str_eq, eq_refl, ok, err, arith, ◌&&◌, is_none, ltb,
}
use arima_executive_os.Auth.Tokens.{
  TokenType, refresh, TokenClaims, JwtPayload, Decoded, payload_of, seconds, Settings, Library,
  invalid_token, type_name, second, show_session, signed_value, lifetime_or, session_of, uuid,
  is_refresh, claims_of, decode_token,
}
use arima_executive_os.Auth.Repository.{
  RefreshTokenSession, record_event, Store, AuthUser, TokenPair, find_usable, issue_in,
  issue_token_pair, refresh_lifetime,
}
use arima_executive_os.Auth.Sessions.{
  consumed, find_auth_user, check_auth_user, is_bound, exchange, refresh_claims, refresh_token_pair,
}

-- What the returned payload holds: its claims, with the moments in whole seconds.
abbrev contents : JwtPayload → Decoded
contents p = record {
  sub = p.sub;
  type = p.type;
  iat = seconds (p.iat / second);
  exp = seconds (p.exp / second);
  jti = p.jti;
  sid = p.sid;
}

-- What the library documents of a payload that it has signed, for the issuer and the audience that
-- are asked for: at a time between its moments, in whole seconds, it returns what the payload holds.
abbrev pub Reads : Library → Settings → ℕ → JwtPayload → Type 0
Reads lib set later p =
    p.iss ≡ set.jwt_issuer
    → p.aud ≡ set.jwt_audience
    → p.iat / second * second ≤ later
    → later < p.exp / second * second
    → lib.decode later set.jwt_secret_key set.jwt_algorithm set.jwt_issuer set.jwt_audience
        (lib.encode set.jwt_secret_key set.jwt_algorithm p)
      ≡ some (contents p)

-- The text of an identifier is read back.
abbrev pub ReadsId : Library → ℕ → Type 0
ReadsId lib n = lib.parse_id (lib.show_id n) ≡ some n

abbrev pub ReadsSession : Library → Option ℕ → Type 0
ReadsSession lib none = Unit
ReadsSession lib (some n) = ReadsId lib n

-- Refresh tokens have a session.
abbrev pub HasSession : TokenClaims → Type 0
HasSession c = (is_refresh c.token_type && is_none c.session_id) ≡ false

abbrev pub in_seconds : TokenClaims → TokenClaims
in_seconds c = record c {
  issued_at = c.issued_at / second * second;
  expires_at = c.expires_at / second * second;
}

uuid_back : (lib : Library) (n : ℕ) → ReadsId lib n → uuid lib (lib.show_id n) ≡ ok n
uuid_back lib n h = rw (h, uuid) refl

session_back :
    (lib : Library) (o : Option ℕ) → ReadsSession lib o → session_of lib (show_session lib o) ≡ ok o
session_back lib none h = refl
session_back lib (some n) h = rw (uuid_back lib n h, session_of) refl

-- A created token is decoded between its moments in whole seconds, as a token of its own type, to its
-- claims with the moments cut to whole seconds, and as one of the other type it is refused: where the
-- library reads the payload that was signed, the texts of its identifiers are read back, and it has a
-- session if it is a refresh token.
pub decode_token-signed_value :
    (lib : Library) (set : Settings) (c : TokenClaims) (later : ℕ)
    → Reads lib set later (payload_of lib set c)
    → c.issued_at / second * second ≤ later
    → later < c.expires_at / second * second
    → ReadsId lib c.subject
    → ReadsId lib c.jti
    → ReadsSession lib c.session_id
    → HasSession c
    → (decode_token lib set (signed_value lib set c) c.token_type later ≡ ok (in_seconds c))
      × ((other : TokenType)
          → str_eq (type_name c.token_type) (type_name other) ≡ false
          → decode_token lib set (signed_value lib set c) other later ≡ err invalid_token)
unfolding decode_token claims_of
decode_token-signed_value lib set c later reads begun soon sub jti sid has =
    let read = reads refl refl begun soon in
    (
      rw
          (
            read,
            decode_token,
            claims_of,
            eq_refl (type_name c.token_type),
            uuid_back lib c.subject sub,
            uuid_back lib c.jti jti,
            session_back lib c.session_id sid,
            has,
          )
          refl,
      λ other h. rw (read, decode_token, claims_of, h) refl,
    )

-- The answer to the token of a row that can be used, which belongs to an account that may refresh.
refresh_at :
    (lib : Library) (set : Settings) (token : String) (c : TokenClaims) (family : ℕ)
    (r : RefreshTokenSession) (u : AuthUser) (later : ℕ) (s : Store)
    → decode_token lib set token refresh later ≡ ok c
    → c.session_id ≡ some family
    → find_usable c.jti later s.sessions ≡ some r
    → is_bound c family r ≡ true
    → check_auth_user (find_auth_user c.subject s) ≡ ok u
    → let p =
        issue_in lib set u.id r.is_persistent r.family_id
          (some r.token_jti)
          later
          (record_event "session_refreshed" u.id (consumed c.jti later s)) in
      refresh_token_pair lib set token later s ≡ (ok p.0, p.1)
unfolding refresh_token_pair refresh_claims exchange issue_token_pair
refresh_at lib set token c family r u later s d e f b g =
    rw (d, refresh_token_pair, e, f, refresh_claims, b, g, exchange) refl

live_until : (a b : ℕ) → a < b / second * second → ltb a b ≡ true
live_until a b h = let before : a < b = omega (arith, h) in ground arith

begun_before : (a b : ℕ) → a ≤ b → a / second * second ≤ b
begun_before a b h = omega (arith, h)

-- The claims of the refresh token that `issue_in` creates.
abbrev pub issued_claims : Settings → ℕ → Bool → ℕ → ℕ → Store → TokenClaims
issued_claims set user remember_me family now s = record {
  subject = user;
  token_type = refresh;
  issued_at = now;
  expires_at = now + lifetime_or (refresh_lifetime set remember_me) set.persistent_lifetime;
  jti = s.next_id + 1;
  session_id = some family;
}

-- A session goes on: the refresh token of a pair that has just been issued to an active and verified
-- user, in whichever family, gets another pair of the same family when it is presented later, before
-- the whole second in which it expires, where the library reads the payload that was signed and the
-- texts of its identifiers are read back.
pub refresh_goes_on :
    (lib : Library) (set : Settings) (user : ℕ) (remember_me : Bool) (family : ℕ)
    (parent : Option ℕ) (now later : ℕ) (s : Store) (u : AuthUser)
    → find_auth_user user s ≡ some u
    → u.is_active ≡ true
    → u.is_verified ≡ true
    → now ≤ later
    → later
      < (issue_in lib set user remember_me family parent now s).0.refresh_expires_at
        / second
        * second
    → Reads lib set later (payload_of lib set (issued_claims set user remember_me family now s))
    → ReadsId lib user
    → ReadsId lib (s.next_id + 1)
    → ReadsId lib family
    → let (pair, s1) = issue_in lib set user remember_me family parent now s in
      (next : TokenPair) × (s2 : Store) × (refresh_token_pair lib set pair.refresh_token later s1
        ≡ (ok next, s2))
      × (next.family_id ≡ family)
unfolding issue_in find_usable
refresh_goes_on lib set user remember_me family parent now later s u found active verified after
      soon read ruser rjti rfamily =
    let c = issued_claims set user remember_me family now s in
    let (decoded, _) =
      decode_token-signed_value lib set c later read (begun_before now later after) soon ruser rjti
        rfamily refl in
    let (pair, s1) = issue_in lib set user remember_me family parent now s in
    let row : RefreshTokenSession = record {
      user_id = user;
      token_jti = s.next_id + 1;
      family_id = family;
      parent_jti = parent;
      is_persistent = remember_me;
      expires_at = c.expires_at;
      revoked_at = none;
      revoked_reason = none;
      last_used_at = none;
    } in
    let account : check_auth_user (find_auth_user user s1) ≡ ok u =
      rw (found, active, verified) refl in
    let usable : find_usable (s.next_id + 1) later s1.sessions ≡ some row =
      rw (==_refl (s.next_id + 1), live_until later c.expires_at soon) refl in
    let bound : is_bound c family row ≡ true = rw (==_refl user, ==_refl family) refl in
    (
      _,
      _,
      refresh_at lib set pair.refresh_token (in_seconds c) family row u later s1 decoded refl usable
          bound account,
      refl,
    )
