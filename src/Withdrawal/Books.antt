-- ===== src/Withdrawal/Books.antt =====
-- The ledger under each method of `WithdrawalService` in app/services/operations.py.
use arima_executive_os.Common.{
  ℕ, ◌≡◌, refl, Bool, true, false, not, Option, none, some, String, ltb_ℤ, inl, inr, Bool-cases,
  Option-cases, Result-cases, arith, if◌then◌else◌, Result, ok, err,
}
use arima_executive_os.Ledger.Tables.{Db, Runtime, LedgerError, Transaction, customer}
use arima_executive_os.Ledger.Service.{account}
use arima_executive_os.Ledger.Movements.{transfer_bucket}
use arima_executive_os.Ledger.Conservation.{
  IsBalanced, account-IsBalanced, transfer_bucket-IsBalanced,
}
use arima_executive_os.Identity.{has_founder_control_access, find_workspace, User, Workspace}
use arima_executive_os.Withdrawal.Tables.{
  rate_limited, identity_mismatch, is_enabled, State, CircuitState, WithdrawalRequest, Store,
  OperationsError, WithdrawalData,
}
use arima_executive_os.Withdrawal.Service.{
  Texts, find_circuit, releases, release, released, release_transfer, transition,
}
use arima_executive_os.Withdrawal.Transitions.{transition_ok, transition_error}
use arima_executive_os.Withdrawal.Create.{
  BalanceSource, ledger_source, unconfigured, Environment, available_balance, reservation_transfer,
  withdrawal_request_fingerprint, find_by_key, other_name, is_refused, lost_race, find_bound,
  reserve_and_insert, create_in, create_for, create_once,
}
use arima_executive_os.Withdrawal.Workspaces.{workspace_for}
use arima_executive_os.Withdrawal.Retry.{Attempt, create, create-IsTried}
use arima_executive_os.Withdrawal.Circuit.{circuit_refused, change_circuit}

abbrev pub BooksBalanced : Store → Type 0
BooksBalanced s = IsBalanced s.ledger

-- Another session that wins the insert leaves balanced books too.
abbrev pub RaceKeepsBooks : Option Store → Type 0
RaceKeepsBooks none = Unit
RaceKeepsBooks (some s) = BooksBalanced s

released-IsBalanced :
    (p : Result LedgerError Transaction × Db) (db : Db)
    → IsBalanced p.1
    → released p ≡ ok db
    → IsBalanced db
released-IsBalanced (ok t, d) db h e = let same : db ≡ d = ground arith in rw same h
released-IsBalanced (err r, d) db h e = absurd (ground arith)

release-IsBalanced :
    (rt : Runtime) (texts : Texts) (r : WithdrawalRequest) (target : State) (actor : User)
    (db db' : Db)
    → IsBalanced db
    → release rt texts r target actor db ≡ ok db'
    → IsBalanced db'
unfolding release
release-IsBalanced rt texts r target actor db db' h e = elim (Bool-cases (releases target)) [
  | inr f ↦ let same : db' ≡ db = ground arith in rw same h
  | inl f ↦
      released-IsBalanced (transfer_bucket rt none none (release_transfer texts r target actor) db)
        db'
        (transfer_bucket-IsBalanced rt none none (release_transfer texts r target actor) db tt tt h)
        (ground arith)
]

pub transition-BooksBalanced :
    (rt : Runtime) (texts : Texts) (id : ℕ) (target : State) (actor : User) (reason : String)
    (c : Bool) (s : Store)
    → BooksBalanced s
    → BooksBalanced (transition rt texts id target actor reason c s).1
transition-BooksBalanced rt texts id target actor reason c s h =
    go (transition rt texts id target actor reason c s) refl
  where
    go :
        (p : Result OperationsError WithdrawalRequest × Store)
        → transition rt texts id target actor reason c s ≡ p
        → BooksBalanced p.1
    go (err e, s') eq = rw (transition_error rt texts id target actor reason c s e s' eq) h
    go (ok r, s') eq =
        let m = transition_ok rt texts id target actor reason c s r s' eq in
        let b = release-IsBalanced rt texts m.request target actor s.ledger m.ledger h m.released in
        rw m.store_eq (record { by_transaction = b.by_transaction; by_asset = b.by_asset })

available_balance-IsBalanced :
    (rt : Runtime) (source : BalanceSource) (user ws : ℕ) (currency : String) (db : Db)
    → IsBalanced db
    → IsBalanced (available_balance rt source user ws currency db).1
unfolding available_balance
available_balance-IsBalanced rt unconfigured user ws currency db h = h
available_balance-IsBalanced rt ledger_source user ws currency db h =
    let p = account rt none ws (some user) currency customer db in
    let k = account-IsBalanced rt none ws (some user) currency customer db tt h in
    elim (Result-cases p.0) [
      | inl (a, e) ↦ rw (e, available_balance) k
      | inr (r, e) ↦ rw (e, available_balance) k
    ]

lost_race-BooksBalanced :
    (x : WithdrawalData) (user ws : ℕ) (fp : String) (s : Store)
    → BooksBalanced s
    → BooksBalanced (lost_race x user ws fp s).1
unfolding lost_race
lost_race-BooksBalanced x user ws fp s h =
    elim (Option-cases (find_bound x.idempotency_key user ws s.requests)) [
      | inl e ↦ rw (e, lost_race) h
      | inr (q, e) ↦ rw (e, lost_race) h
    ]

reserve_and_insert-BooksBalanced :
    (rt : Runtime) (texts : Texts) (env : Environment) (x : WithdrawalData) (user ws : ℕ)
    (fp : String) (db : Db) (s : Store)
    → RaceKeepsBooks env.race
    → IsBalanced db
    → BooksBalanced s
    → BooksBalanced (reserve_and_insert rt texts env x user ws fp db s).1
unfolding reserve_and_insert
reserve_and_insert-BooksBalanced rt texts env x user ws fp db s w k h =
    let p = transfer_bucket rt none none (reservation_transfer texts x user ws) db in
    let b =
      transfer_bucket-IsBalanced rt none none (reservation_transfer texts x user ws) db tt tt k in
    elim (Result-cases p.0) [
      | inr (r, e) ↦ rw (e, reserve_and_insert) h
      | inl (t, e) ↦ elim (Option-cases env.race) [
        | inl f ↦
            rw (e, f, reserve_and_insert)
              (record { by_transaction = b.by_transaction; by_asset = b.by_asset })
        | inr (d, f) ↦
            let other : BooksBalanced d = rw f at w in
            rw (e, f, reserve_and_insert) (lost_race-BooksBalanced x user ws fp d other)
      ]
    ]

create_in-BooksBalanced :
    (rt : Runtime) (texts : Texts) (env : Environment) (x : WithdrawalData) (user : User)
    (w : Workspace) (s : Store)
    → RaceKeepsBooks env.race
    → BooksBalanced s
    → BooksBalanced (create_in rt texts env x user w s).1
unfolding create_in
create_in-BooksBalanced rt texts env x user w s race h = elim (Option-cases (find_circuit w.id s)) [
  | inl e ↦ rw (e, create_in) h
  | inr (c, e) ↦ elim (Bool-cases (is_enabled c.state)) [
    | inr off ↦ rw (e, off, create_in) h
    | inl on ↦ elim (Option-cases (find_by_key x.idempotency_key s.requests)) [
      | inr (r, f) ↦ rw (e, on, f, create_in) h
      | inl f ↦
          let b = available_balance rt env.source user.id w.id x.currency s.ledger in
          let fp = withdrawal_request_fingerprint rt env x user.id w.id in
          let k = available_balance-IsBalanced rt env.source user.id w.id x.currency s.ledger h in
          elim (Result-cases b.0) [
            | inr (r, g) ↦ rw (e, on, f, g, create_in) h
            | inl (amount, g) ↦ elim (Bool-cases (ltb_ℤ amount x.amount)) [
              | inl low ↦ rw (e, on, f, g, low, create_in) h
              | inr enough ↦
                  rw (e, on, f, g, enough, create_in)
                    (reserve_and_insert-BooksBalanced rt texts env x user.id w.id fp b.1 s race k h)
            ]
          ]
    ]
  ]
]

create_for-BooksBalanced :
    (rt : Runtime) (texts : Texts) (env : Environment) (x : WithdrawalData) (user : User)
    (s : Store)
    → RaceKeepsBooks env.race
    → BooksBalanced s
    → BooksBalanced (create_for rt texts env x user s).1
unfolding create_for
create_for-BooksBalanced rt texts env x user s race h =
    elim (Result-cases (workspace_for s.directory user.id)) [
      | inr (r, e) ↦ rw (e, create_for) h
      | inl (w, e) ↦ elim (Bool-cases (is_refused env user w s)) [
        | inl f ↦ rw (e, f, create_for) h
        | inr f ↦ rw (e, f, create_for) (create_in-BooksBalanced rt texts env x user w s race h)
      ]
    ]

create_once-BooksBalanced :
    (rt : Runtime) (texts : Texts) (env : Environment) (x : WithdrawalData) (user : User)
    (s : Store)
    → RaceKeepsBooks env.race
    → BooksBalanced s
    → BooksBalanced (create_once rt texts env x user s).1
unfolding create_once
create_once-BooksBalanced rt texts env x user s race h = go env.within_rate (other_name env x user)
  where
    go :
        (a b : Bool)
        → BooksBalanced
            (if not a
              then (err rate_limited, s)
              else if b
              then (err identity_mismatch, s)
              else create_for rt texts env x user s).1
    go false b = h
    go true true = h
    go true false = create_for-BooksBalanced rt texts env x user s race h

pub create-BooksBalanced :
    (rt : Runtime) (texts : Texts) (attempts : ℕ → Attempt) (x : WithdrawalData) (user : User)
    (s : Store)
    → ((n : ℕ) → RaceKeepsBooks (attempts n).environment.race)
    → BooksBalanced s
    → BooksBalanced (create rt texts attempts x user s).1
create-BooksBalanced rt texts attempts x user s race h =
    elim (create-IsTried rt texts attempts x user s) [
      | inr (e, same) ↦ rw same h
      | inl t ↦ rw t.result (
          create_once-BooksBalanced rt texts (attempts t.attempt).environment x t.as_user s
            (race t.attempt) h)
    ]

pub change_circuit-BooksBalanced :
    (rt : Runtime) (ws : ℕ) (state : CircuitState) (reason : String) (actor : User) (b : Bool)
    (s : Store)
    → BooksBalanced s
    → BooksBalanced (change_circuit rt ws state reason actor b s).1
unfolding change_circuit
change_circuit-BooksBalanced rt ws state reason actor b s h =
    elim (Bool-cases (has_founder_control_access s.directory actor)) [
      | inr e ↦ rw (e, change_circuit) h
      | inl e ↦ elim (Option-cases (find_workspace ws s.directory)) [
        | inl f ↦ rw (e, f, change_circuit) h
        | inr (w, f) ↦ elim (Bool-cases (circuit_refused b actor ws w s)) [
          | inl g ↦ rw (e, f, g, change_circuit) h
          | inr g ↦
              rw (e, f, g, change_circuit)
                (record { by_transaction = h.by_transaction; by_asset = h.by_asset })
        ]
      ]
    ]
