-- ===== src/Withdrawal/Replay.antt =====
-- A withdrawal request that is sent again to `_create_once` of app/services/operations.py.
use arima_executive_os.Common.{
  ◌≡◌, ◌∙◌, refl, ap, ==_refl, eq_refl, true, false, none, some, arith, ok,
}
use text.Mathlib.Text.{starts_with}
use arima_executive_os.Ledger.Tables.{Runtime}
use arima_executive_os.Identity.{User, Workspace}
use arima_executive_os.Withdrawal.Tables.{
  is_enabled, CircuitBreaker, WithdrawalRequest, Store, WithdrawalData,
}
use arima_executive_os.Withdrawal.Service.{Texts, find_circuit}
use arima_executive_os.Withdrawal.Workspaces.{workspace_for}
use arima_executive_os.Withdrawal.Create.{
  Environment, withdrawal_request_fingerprint, find_by_key, check_existing, create_in, create_for,
  create_once,
}
use arima_executive_os.Withdrawal.Creation.{create_once_ok}

-- Up to the workspace's circuit breaker, a call depends on the directory only.
create_once-same_directory :
    (rt : Runtime) (texts : Texts) (env : Environment) (x : WithdrawalData) (user : User)
    (w : Workspace) (s t : Store) (r : WithdrawalRequest) (s' : Store)
    → t.directory ≡ s.directory
    → workspace_for s.directory user.id ≡ ok w
    → create_once rt texts env x user s ≡ (ok r, s')
    → create_once rt texts env x user t ≡ create_in rt texts env x user w t
unfolding create_once create_for
create_once-same_directory rt texts env x user w s t r s' same f h =
    rw (same, create_once, create_for) (ground arith)

-- The circuit breaker is enabled, and the key is taken.
create_in-existing :
    (rt : Runtime) (texts : Texts) (env : Environment) (x : WithdrawalData) (user : User)
    (w : Workspace) (s : Store) (c : CircuitBreaker) (r : WithdrawalRequest)
    → find_circuit w.id s ≡ some c
    → is_enabled c.state ≡ true
    → find_by_key x.idempotency_key s.requests ≡ some r
    → create_in rt texts env x user w s
      ≡ (check_existing user.id w.id (withdrawal_request_fingerprint rt env x user.id w.id) r, s)
unfolding create_in
create_in-existing rt texts env x user w s c r e on f = ground arith

-- A creation that succeeded under a free key, with no other session winning the insert, for a user
-- with one workspace, is answered by the same request when the same call comes again, and the store
-- does not change again. The digest must not look like the placeholder of a migrated row.
pub create_once_again :
    (rt : Runtime) (texts : Texts) (env : Environment) (x : WithdrawalData) (user : User)
    (w : Workspace) (s : Store) (r : WithdrawalRequest) (s' : Store)
    → env.race ≡ none
    → find_by_key x.idempotency_key s.requests ≡ none
    → workspace_for s.directory user.id ≡ ok w
    → starts_with "legacy-unverified:" (withdrawal_request_fingerprint rt env x user.id w.id)
      ≡ false
    → create_once rt texts env x user s ≡ (ok r, s')
    → create_once rt texts env x user s' ≡ (ok r, s')
create_once_again rt texts env x user w s r s' alone free works plain h =
    let m = create_once_ok rt texts env x user s r s' alone free h in
    let same : m.workspace ≡ w = ground (arith, m.workspace_eq) in
    let fp = withdrawal_request_fingerprint rt env x user.id w.id in
    let found : find_by_key x.idempotency_key s'.requests ≡ some r =
      rw (m.store_eq, m.request_eq, eq_refl x.idempotency_key) refl in
    let breaker : find_circuit w.id s' ≡ some m.breaker = rw (m.store_eq, ← same) m.breaker_found in
    let bound : (r.user_id ≡ user.id) × (r.workspace_id ≡ w.id) × (r.request_fingerprint ≡ fp) =
      rw (m.request_eq, same) (refl, refl, refl) in
    let answer : check_existing user.id w.id fp r ≡ ok r =
      rw (bound.0, bound.1, bound.2, ==_refl user.id, ==_refl w.id, plain, eq_refl fp) refl in
    create_once-same_directory rt texts env x user w s s' r s' (rw m.store_eq refl) works h
    ∙ create_in-existing rt texts env x user w s' m.breaker r breaker m.breaker_enabled found
    ∙ ap (λ a. (a, s')) answer
