-- ===== src/Withdrawal/Creation.antt =====
-- A withdrawal request that `_create_once` of app/services/operations.py has created: what it has
-- passed and reserved.
use arima_executive_os.Common.{
  ℕ, ◌≡◌, refl, true, none, some, String, inl, inr, Option-cases, Result-cases, arith, ok,
}
use arima_executive_os.Ledger.Tables.{Db, Runtime, Transaction}
use arima_executive_os.Ledger.Movements.{transfer_bucket}
use arima_executive_os.Identity.{User, Workspace}
use arima_executive_os.Withdrawal.Tables.{
  is_enabled, CircuitBreaker, WithdrawalRequest, Store, WithdrawalData,
}
use arima_executive_os.Withdrawal.Service.{Texts, find_circuit}
use arima_executive_os.Withdrawal.Workspaces.{workspace_for}
use arima_executive_os.Withdrawal.Create.{
  Environment, withdrawal_request_fingerprint, find_by_key, available_balance, reservation_transfer,
  new_request, created_store, reserve_and_insert, create_in, create_for, create_once,
}

-- What a creation under a free key has found and done.
pub record IsCreated (rt : Runtime) (texts : Texts) (env : Environment) (x : WithdrawalData)
    (user : User) (s : Store) (r : WithdrawalRequest) (s' : Store) : Type 0 where
  pub workspace : Workspace
  pub breaker : CircuitBreaker
  pub before : Db
  pub payment : Transaction
  pub after : Db
  pub workspace_eq : workspace_for s.directory user.id ≡ ok workspace
  pub breaker_found : find_circuit workspace.id s ≡ some breaker
  pub breaker_enabled : is_enabled breaker.state ≡ true
  pub before_eq :
      before ≡ (available_balance rt env.source user.id workspace.id x.currency s.ledger).1
  pub reserved_eq :
      transfer_bucket rt none none (reservation_transfer texts x user.id workspace.id) before
      ≡ (ok payment, after)
  pub request_eq :
      r
      ≡ new_request x user.id workspace.id
          (withdrawal_request_fingerprint rt env x user.id workspace.id)
          env.mail
          after.next_id
  pub store_eq : s' ≡ created_store r env.mail after s

reserve_and_insert_ok :
    (rt : Runtime) (texts : Texts) (env : Environment) (x : WithdrawalData) (user ws : ℕ)
    (fp : String) (db : Db) (s : Store) (r : WithdrawalRequest) (s' : Store)
    → env.race ≡ none
    → reserve_and_insert rt texts env x user ws fp db s ≡ (ok r, s')
    → (t : Transaction) × (d : Db) × (transfer_bucket rt none none
          (reservation_transfer texts x user ws)
          db
        ≡ (ok t, d))
      × (r ≡ new_request x user ws fp env.mail d.next_id)
      × (s' ≡ created_store r env.mail d s)
unfolding reserve_and_insert
reserve_and_insert_ok rt texts env x user ws fp db s r s' alone h =
    let p = transfer_bucket rt none none (reservation_transfer texts x user ws) db in
    elim (Result-cases p.0) [
      | inr (e, f) ↦ absurd (ground arith)
      | inl (t, f) ↦ (t, p.1, ground arith, ground arith, ground arith)
    ]

create_once-create_in :
    (rt : Runtime) (texts : Texts) (env : Environment) (x : WithdrawalData) (user : User)
    (s : Store) (r : WithdrawalRequest) (s' : Store)
    → create_once rt texts env x user s ≡ (ok r, s')
    → (w : Workspace) × (workspace_for s.directory user.id ≡ ok w)
      × (create_in rt texts env x user w s ≡ (ok r, s'))
unfolding create_once create_for
create_once-create_in rt texts env x user s r s' h =
    elim (Result-cases (workspace_for s.directory user.id)) [
      | inr (e, f) ↦ absurd (ground arith)
      | inl (w, f) ↦ (w, f, ground arith)
    ]

create_in-reserve :
    (rt : Runtime) (texts : Texts) (env : Environment) (x : WithdrawalData) (user : User)
    (w : Workspace) (s : Store) (r : WithdrawalRequest) (s' : Store)
    → find_by_key x.idempotency_key s.requests ≡ none
    → create_in rt texts env x user w s ≡ (ok r, s')
    → (c : CircuitBreaker) × (find_circuit w.id s ≡ some c)
      × (is_enabled c.state ≡ true)
      × (reserve_and_insert rt texts env x user.id w.id
            (withdrawal_request_fingerprint rt env x user.id w.id)
            (available_balance rt env.source user.id w.id x.currency s.ledger).1
            s
          ≡ (ok r, s'))
unfolding create_in
create_in-reserve rt texts env x user w s r s' free h = elim (Option-cases (find_circuit w.id s)) [
  | inl g ↦ absurd (ground arith)
  | inr (c, g) ↦ (c, g, ground arith, ground arith)
]

pub create_once_ok :
    (rt : Runtime) (texts : Texts) (env : Environment) (x : WithdrawalData) (user : User)
    (s : Store) (r : WithdrawalRequest) (s' : Store)
    → env.race ≡ none
    → find_by_key x.idempotency_key s.requests ≡ none
    → create_once rt texts env x user s ≡ (ok r, s')
    → IsCreated rt texts env x user s r s'
create_once_ok rt texts env x user s r s' alone free h =
    let (w, f, in_eq) = create_once-create_in rt texts env x user s r s' h in
    let (c, g, on, inserted) = create_in-reserve rt texts env x user w s r s' free in_eq in
    let db = (available_balance rt env.source user.id w.id x.currency s.ledger).1 in
    let fp = withdrawal_request_fingerprint rt env x user.id w.id in
    let (t, d, sent, r_eq, s_eq) =
      reserve_and_insert_ok rt texts env x user.id w.id fp db s r s' alone inserted in
    record {
      workspace = w;
      breaker = c;
      before = db;
      payment = t;
      after = d;
      workspace_eq = f;
      breaker_found = g;
      breaker_enabled = on;
      before_eq = refl;
      reserved_eq = sent;
      request_eq = r_eq;
      store_eq = s_eq;
    }
