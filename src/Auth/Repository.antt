-- ===== src/Auth/Repository.antt =====
-- The rows of app/database/models/refresh_token.py, the queries of
-- app/database/repositories/refresh_token.py, and `issue_token_pair` of app/auth/service.py.
use arima_executive_os.Common.{
  ℕ, ◌+◌, ◌/◌, ◌==◌, ltb, Bool, true, false, ◌&&◌, Option, none, some, List, [], ◌∷◌, String,
  if◌then◌else◌, is_none, find_first, keep, any_of,
}
use arima_executive_os.Ledger.Tables.{Audit}
use arima_executive_os.Auth.Tokens.{
  second, Settings, Library, create_access_token, create_refresh_token,
}

pub record RefreshTokenSession : Type 0 where
  pub user_id : ℕ
  pub token_jti : ℕ
  pub family_id : ℕ
  pub parent_jti : Option ℕ
  pub is_persistent : Bool
  pub expires_at : ℕ
  pub revoked_at : Option ℕ
  pub revoked_reason : Option String
  pub last_used_at : Option ℕ

pub record AuthUser : Type 0 where
  pub id : ℕ
  pub is_active : Bool
  pub is_verified : Bool

pub record SecurityEvent : Type 0 where
  pub event_type : String
  pub user_id : ℕ

pub record Store : Type 0 where
  pub users : List AuthUser
  pub sessions : List RefreshTokenSession
  pub events : List SecurityEvent
  pub audits : List Audit
  pub next_id : ℕ

pub record TokenPair : Type 0 where
  pub access_token : String
  pub refresh_token : String
  pub expires_in : ℕ
  pub family_id : ℕ
  pub refresh_expires_at : ℕ
  pub is_persistent : Bool

abbrev pub is_live : RefreshTokenSession → Bool
is_live r = is_none r.revoked_at

-- Not revoked and not expired.
abbrev pub is_active_at : ℕ → RefreshTokenSession → Bool
is_active_at now r = is_live r && ltb now r.expires_at

abbrev pub is_usable : ℕ → ℕ → RefreshTokenSession → Bool
is_usable jti now r = r.token_jti == jti && is_active_at now r

abbrev pub rotated : ℕ → RefreshTokenSession → RefreshTokenSession
rotated now r = record r {
  revoked_at = some now;
  revoked_reason = some "rotated";
  last_used_at = some now;
}

-- The row that `consume_active` locks, and the rows after it has been marked.
unfoldable pub find_usable : ℕ → ℕ → List RefreshTokenSession → Option RefreshTokenSession
find_usable jti now rs = find_first (is_usable jti now) rs

unfoldable pub mark_rotated : ℕ → ℕ → List RefreshTokenSession → List RefreshTokenSession
mark_rotated jti now [] = []
mark_rotated jti now (r ∷ rs) =
    let rest = mark_rotated jti now rs in
    if is_usable jti now r then rotated now r ∷ rs else r ∷ rest

abbrev pub revoked : ℕ → String → RefreshTokenSession → RefreshTokenSession
revoked now reason r = record r { revoked_at = some now; revoked_reason = some reason }

-- The bulk updates of the rows that are not revoked yet.
unfoldable pub revoke_where :
    (RefreshTokenSession → Bool) → ℕ → String → List RefreshTokenSession → List RefreshTokenSession
revoke_where p now reason [] = []
revoke_where p now reason (r ∷ rs) =
    let rest = revoke_where p now reason rs in
    if p r && is_live r then revoked now reason r ∷ rest else r ∷ rest

abbrev pub revoke_family : ℕ → ℕ → String → Store → Store
revoke_family family now reason s = record s {
  sessions = revoke_where (λ r. r.family_id == family) now reason s.sessions;
}

abbrev pub revoke_all_for_user : ℕ → ℕ → String → Store → Store
revoke_all_for_user user now reason s = record s {
  sessions = revoke_where (λ r. r.user_id == user) now reason s.sessions;
}

unfoldable pub has_active_family : ℕ → ℕ → Store → Bool
has_active_family family now s =
    any_of (λ r. r.family_id == family && is_active_at now r) s.sessions

abbrev pub list_active_for_user : ℕ → ℕ → Store → List RefreshTokenSession
list_active_for_user user now s = keep (λ r. r.user_id == user && is_active_at now r) s.sessions

abbrev pub record_event : String → ℕ → Store → Store
record_event type user s = record s {
  events = record { event_type = type; user_id = user } ∷ s.events;
}

abbrev pub record_audit : ℕ → Store → Store
record_audit user s = record s {
  audits = record { actor_id = user; event_type = "SESSION_REVOKED"; entity_id = user } ∷ s.audits;
}

abbrev pub refresh_lifetime : Settings → Bool → ℕ
refresh_lifetime set true = set.persistent_lifetime
refresh_lifetime set false = set.session_lifetime

-- The row and the pair of a family, the two tokens taking the next two identifiers.
unfoldable pub issue_in :
    Library → Settings → ℕ → Bool → ℕ → Option ℕ → ℕ → Store → TokenPair × Store
issue_in lib set user remember_me family parent now s =
    let access = create_access_token lib set user (some family) s.next_id now in
    let token =
      create_refresh_token lib set user (refresh_lifetime set remember_me) (some family)
        (s.next_id + 1) now in
    (
      record {
        access_token = access.value;
        refresh_token = token.value;
        expires_in = set.access_lifetime / second;
        family_id = family;
        refresh_expires_at = token.claims.expires_at;
        is_persistent = remember_me;
      },
      record s {
        sessions =
            record {
              user_id = user;
              token_jti = token.claims.jti;
              family_id = family;
              parent_jti = parent;
              is_persistent = remember_me;
              expires_at = token.claims.expires_at;
              revoked_at = none;
              revoked_reason = none;
              last_used_at = none;
            }
            ∷ s.sessions;
        next_id = s.next_id + 2;
      },
    )

-- `issue_token_pair`: a login has no family yet.
unfoldable pub issue_token_pair :
    Library → Settings → ℕ → Bool → Option ℕ → Option ℕ → ℕ → Store → TokenPair × Store
unfolding issue_in
issue_token_pair lib set user remember_me none parent now s =
    issue_in lib set user remember_me s.next_id parent now (record s { next_id = s.next_id + 1 })
issue_token_pair lib set user remember_me (some family) parent now s =
    issue_in lib set user remember_me family parent now s
