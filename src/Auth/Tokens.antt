-- ===== src/Auth/Tokens.antt =====
-- `JWTService` of app/auth/tokens.py. Moments count microseconds. The signing library and the texts
-- of identifiers are in `Library`: `encode` writes the moments of a payload as whole seconds, and
-- `decode` returns what the token holds, or nothing where the signature, a required claim, the
-- issuer, the audience or the time is wrong.
use arima_executive_os.Common.{
  ℕ, ◌+◌, ◌*◌, ◌==◌, Bool, true, false, ◌&&◌, not, Option, none, some, String, str_eq,
  if◌then◌else◌, is_none, Result, ok, err, ◌>>=◌,
}

pub data TokenType : Type 0 where
  access refresh : TokenType

pub record TokenClaims : Type 0 where
  pub subject : ℕ
  pub token_type : TokenType
  pub issued_at : ℕ
  pub expires_at : ℕ
  pub jti : ℕ
  pub session_id : Option ℕ

pub record EncodedToken : Type 0 where
  pub value : String
  pub claims : TokenClaims

pub record JwtPayload : Type 0 where
  pub sub : String
  pub type : String
  pub iat : ℕ
  pub exp : ℕ
  pub jti : String
  pub iss : String
  pub aud : String
  pub sid : Option String

-- A time stamp as the library returns it: a whole number of seconds, or something else.
pub data Stamp : Type 0 where
  seconds : ℕ → Stamp
  other : Stamp

pub record Decoded : Type 0 where
  pub sub : String
  pub type : String
  pub iat : Stamp
  pub exp : Stamp
  pub jti : String
  pub sid : Option String

pub record Settings : Type 0 where
  pub jwt_secret_key : String
  pub jwt_algorithm : String
  pub jwt_issuer : String
  pub jwt_audience : String
  pub access_lifetime : ℕ  -- `access_token_expire_minutes`, in microseconds
  pub persistent_lifetime : ℕ  -- `refresh_token_expire_days`
  pub session_lifetime : ℕ  -- `session_refresh_token_expire_hours`

pub record Library : Type 0 where
  pub show_id : ℕ → String
  pub parse_id : String → Option ℕ
  pub encode : String → String → JwtPayload → String
  pub decode : ℕ → String → String → String → String → String → Option Decoded

pub data AuthError : Type 0 where
  invalid_token token_reuse inactive_user email_not_verified : AuthError

abbrev pub type_name : TokenType → String
type_name access = "access"
type_name refresh = "refresh"

abbrev pub second : ℕ
second = 1000000

abbrev pub show_session : Library → Option ℕ → Option String
show_session lib none = none
show_session lib (some n) = some (lib.show_id n)

abbrev pub payload_of : Library → Settings → TokenClaims → JwtPayload
payload_of lib set c = record {
  sub = lib.show_id c.subject;
  type = type_name c.token_type;
  iat = c.issued_at;
  exp = c.expires_at;
  jti = lib.show_id c.jti;
  iss = set.jwt_issuer;
  aud = set.jwt_audience;
  sid = show_session lib c.session_id;
}

abbrev pub signed_value : Library → Settings → TokenClaims → String
signed_value lib set c = lib.encode set.jwt_secret_key set.jwt_algorithm (payload_of lib set c)

abbrev pub create_token : Library → Settings → TokenType → ℕ → ℕ → Option ℕ → ℕ → ℕ → EncodedToken
create_token lib set type subject lifetime session_id jti now =
    let claims : TokenClaims = record {
      subject = subject;
      token_type = type;
      issued_at = now;
      expires_at = now + lifetime;
      jti = jti;
      session_id = session_id;
    } in
    record { value = signed_value lib set claims; claims = claims }

abbrev pub create_access_token : Library → Settings → ℕ → Option ℕ → ℕ → ℕ → EncodedToken
create_access_token lib set subject session_id jti now =
    create_token lib set access subject set.access_lifetime session_id jti now

-- `expires_delta or timedelta(days=…)`: no time at all is the default.
abbrev pub lifetime_or : ℕ → ℕ → ℕ
lifetime_or lifetime default = if lifetime == 0 then default else lifetime

abbrev pub create_refresh_token : Library → Settings → ℕ → ℕ → Option ℕ → ℕ → ℕ → EncodedToken
create_refresh_token lib set subject lifetime session_id jti now =
    create_token lib set refresh subject (lifetime_or lifetime set.persistent_lifetime) session_id
      jti now

abbrev pub timestamp : Stamp → Result AuthError ℕ
timestamp (seconds n) = ok (n * second)
timestamp other = err invalid_token

-- `UUID(text)`, whose `ValueError` is an invalid token.
abbrev pub uuid : Library → String → Result AuthError ℕ
uuid lib s = elim (lib.parse_id s) [ none ↦ err invalid_token | some n ↦ ok n ]

abbrev pub session_of : Library → Option String → Result AuthError (Option ℕ)
session_of lib none = ok none
session_of lib (some s) = uuid lib s >>= λ n. ok (some n)

abbrev pub is_refresh : TokenType → Bool
is_refresh access = false
is_refresh refresh = true

-- The checks of the payload, whose type must be the expected one.
unfoldable pub claims_of : Library → TokenType → Decoded → Result AuthError TokenClaims
claims_of lib expected p =
    if not (str_eq p.type (type_name expected))
    then err invalid_token
    else uuid lib p.sub >>= λ subject. uuid lib p.jti >>= λ jti.
        session_of lib p.sid >>= λ session_id.
        if is_refresh expected && is_none session_id
        then err invalid_token
        else timestamp p.iat >>= λ issued_at. timestamp p.exp >>= λ expires_at. ok (record {
          subject = subject;
          token_type = expected;
          issued_at = issued_at;
          expires_at = expires_at;
          jti = jti;
          session_id = session_id;
        })

unfoldable pub decode_token :
    Library → Settings → String → TokenType → ℕ → Result AuthError TokenClaims
unfolding claims_of
decode_token lib set token expected now =
    elim (lib.decode now set.jwt_secret_key set.jwt_algorithm set.jwt_issuer set.jwt_audience
      token) [ none ↦ err invalid_token | some p ↦ claims_of lib expected p ]
