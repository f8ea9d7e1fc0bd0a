-- ===== src/Withdrawal/Create.antt =====
-- `WithdrawalService._create_once` and `_notify` of app/services/operations.py. What the code takes from elsewhere is in `Environment`: the rate
-- limiter's answer, the case foldings and the digest of the standard library, the mail service's
-- answer, and the database errors that the driver raises in each attempt.
use arima_executive_os.Common.{
  ℕ, ◌+◌, ◌==◌, Bool, true, false, ◌&&◌, ◌||◌, not, Option, none, some, List, ◌∷◌, String, str_eq,
  ℤ, ltb_ℤ, if◌then◌else◌, find_first, Result, ok, err,
}
use text.Mathlib.Text.{starts_with}
use arima_executive_os.Ledger.Tables.{Audit, Db, available, reserved, customer, Runtime}
use arima_executive_os.Ledger.Service.{account}
use arima_executive_os.Ledger.Movements.{Transfer, transfer_bucket, balance}
use arima_executive_os.Identity.{User, Workspace, resolve}
use arima_executive_os.Withdrawal.Tables.{
  under_review, is_enabled, WithdrawalRequest, Store, OperationsError, context_denied, circuit_open,
  rate_limited, identity_mismatch, bound_to_other, legacy_request, key_conflict,
  balance_unavailable, insufficient_balance, unsafe_request, WithdrawalData, WithdrawalPayload,
}
use arima_executive_os.Withdrawal.Service.{Texts, circuit}
use arima_executive_os.Withdrawal.Workspaces.{workspace_for}

pub data BalanceSource : Type 0 where
  ledger_source unconfigured : BalanceSource

-- The answer of the mail service: none configured, a delivery, or an `EmailDeliveryError`.
pub data Mail : Type 0 where
  no_service sent refused : Mail

pub record Environment : Type 0 where
  pub within_rate : Bool
  pub casefold : String → String
  pub lower : String → String
  pub digest : WithdrawalPayload → String
  pub source : BalanceSource
  pub mail : Mail
  pub require_context : Bool
  pub race : Option Store  -- another session wins the insert of the request

unfoldable pub withdrawal_request_fingerprint :
    Runtime → Environment → WithdrawalData → ℕ → ℕ → String
withdrawal_request_fingerprint rt env x user ws = env.digest (record {
  user_id = user;
  workspace_id = ws;
  amount = x.amount;
  currency = rt.upper x.currency;
  destination_wallet_address = env.lower x.destination_wallet_address;
  network = env.lower x.network;
  risk_acknowledgement = x.risk_acknowledgement;
  first_name = env.casefold x.first_name;
  last_name = env.casefold x.last_name;
})

abbrev pub find_by_key : String → List WithdrawalRequest → Option WithdrawalRequest
find_by_key key rs = find_first (λ r. str_eq r.idempotency_key key) rs

abbrev pub is_legacy : WithdrawalRequest → Bool
is_legacy r = starts_with "legacy-unverified:" r.request_fingerprint

-- An existing request answers a call only if it stores the call's fingerprint.
abbrev pub check_fingerprint : String → WithdrawalRequest → Result OperationsError WithdrawalRequest
check_fingerprint fp r =
    if is_legacy r
    then err legacy_request
    else if str_eq r.request_fingerprint fp
    then ok r
    else err key_conflict

abbrev pub check_existing :
    ℕ → ℕ → String → WithdrawalRequest → Result OperationsError WithdrawalRequest
check_existing user ws fp r =
    if not (r.user_id == user) || not (r.workspace_id == ws)
    then err bound_to_other
    else check_fingerprint fp r

-- The available balance, and the ledger with the account that reading it may create.
unfoldable pub available_balance :
    Runtime → BalanceSource → ℕ → ℕ → String → Db → Result OperationsError ℤ × Db
available_balance rt unconfigured user ws currency db = (err balance_unavailable, db)
available_balance rt ledger_source user ws currency db =
    let (r, db') = account rt none ws (some user) currency customer db in
    elim r [
      | err _ ↦ (err insufficient_balance, db')
      | ok a ↦ (ok (balance rt a.id currency db').available_balance, db')
    ]

abbrev pub reservation_transfer : Texts → WithdrawalData → ℕ → ℕ → Transfer
reservation_transfer texts x user ws = record {
  workspace_id = ws;
  user_id = user;
  asset = x.currency;
  amount = x.amount;
  source_bucket = available;
  target_bucket = reserved;
  transaction_type = "withdrawal_reservation";
  idempotency_key = texts.reservation_key x.idempotency_key;
  actor_id = some user;
  reference = x.idempotency_key;
}

abbrev pub mail_status : Mail → String
mail_status no_service = "failed"
mail_status sent = "sent"
mail_status refused = "failed"

abbrev pub mail_error : Mail → Option String
mail_error no_service = some "transactional_email_unavailable"
mail_error sent = none
mail_error refused = some "delivery_failed"

abbrev pub mail_event : Mail → String
mail_event sent = "EMAIL_NOTIFICATION_SENT"
mail_event _ = "EMAIL_NOTIFICATION_FAILED"

-- The new row, after `_notify` has written the outcome of the mail.
abbrev pub new_request : WithdrawalData → ℕ → ℕ → String → Mail → ℕ → WithdrawalRequest
new_request x user ws fp mail id = record {
  id = id;
  workspace_id = ws;
  user_id = user;
  amount = x.amount;
  currency = x.currency;
  destination_wallet_address = x.destination_wallet_address;
  network = x.network;
  risk_acknowledged = x.risk_acknowledgement;
  idempotency_key = x.idempotency_key;
  request_fingerprint = fp;
  state = under_review;
  state_reason = "Validated and queued for review";
  reviewed_by_id = none;
  reviewed_at = none;
  approved_by_id = none;
  approved_at = none;
  notification_status = mail_status mail;
  notification_error = mail_error mail;
}

abbrev pub audit_row : ℕ → String → ℕ → Audit
audit_row actor event entity = record { actor_id = actor; event_type = event; entity_id = entity }

-- The committed store of a creation whose reservation has left the ledger `db`.
abbrev pub created_store : WithdrawalRequest → Mail → Db → Store → Store
created_store r mail db s = record s {
  ledger = record db {
    audits =
        audit_row r.user_id (mail_event mail) r.id
        ∷ audit_row r.user_id "WITHDRAWAL_REVIEWED" r.id
        ∷ audit_row r.user_id "WITHDRAWAL_REQUESTED" r.id
        ∷ db.audits;
    next_id = db.next_id + 1;
  };
  requests = r ∷ s.requests;
}

abbrev pub find_bound : String → ℕ → ℕ → List WithdrawalRequest → Option WithdrawalRequest
find_bound key user ws rs =
    find_first (λ q. str_eq q.idempotency_key key && q.user_id == user && q.workspace_id == ws) rs

-- The insert has lost a uniqueness race: the winner's request answers, if it is the caller's.
unfoldable pub lost_race :
    WithdrawalData → ℕ → ℕ → String → Store → Result OperationsError WithdrawalRequest × Store
lost_race x user ws fp s = elim (find_bound x.idempotency_key user ws s.requests) [
  | none ↦ (err unsafe_request, s)
  | some q ↦ (check_fingerprint fp q, s)
]

-- The savepoint: the reservation and the row are written together, or neither is.
unfoldable pub reserve_and_insert :
    Runtime
    → Texts
    → Environment
    → WithdrawalData
    → ℕ
    → ℕ
    → String
    → Db
    → Store
    → Result OperationsError WithdrawalRequest × Store
reserve_and_insert rt texts env x user ws fp db s =
    let (r, db') = transfer_bucket rt none none (reservation_transfer texts x user ws) db in
    elim r [
      | err _ ↦ (err insufficient_balance, s)
      | ok _ ↦ elim env.race [
        | none ↦
            let q = new_request x user ws fp env.mail db'.next_id in
            (ok q, created_store q env.mail db' s)
        | some s' ↦ lost_race x user ws fp s'
      ]
    ]

-- From the circuit breaker on.
unfoldable pub create_in :
    Runtime
    → Texts
    → Environment
    → WithdrawalData
    → User
    → Workspace
    → Store
    → Result OperationsError WithdrawalRequest × Store
unfolding available_balance reserve_and_insert
create_in rt texts env x user w s = elim (circuit w.id s) [
  | err e ↦ (err e, s)
  | ok c ↦
      if not (is_enabled c.state)
      then (err circuit_open, s)
      else let fp = withdrawal_request_fingerprint rt env x user.id w.id in
        elim (find_by_key x.idempotency_key s.requests) [
          | some r ↦ (check_existing user.id w.id fp r, s)
          | none ↦
              let (b, db) = available_balance rt env.source user.id w.id x.currency s.ledger in
              elim b [
                | err e ↦ (err e, s)
                | ok amount ↦
                    if ltb_ℤ amount x.amount
                    then (err insufficient_balance, s)
                    else reserve_and_insert rt texts env x user.id w.id fp db s
              ]
        ]
]

abbrev pub other_name : Environment → WithdrawalData → User → Bool
other_name env x user =
    not (str_eq (env.casefold x.first_name) (env.casefold user.first_name))
    || not (str_eq (env.casefold x.last_name) (env.casefold user.last_name))

-- An authoritative context is required and `resolve` refuses it.
abbrev pub is_refused : Environment → User → Workspace → Store → Bool
is_refused env user w s =
    env.require_context
    && elim (resolve s.directory user w.id user.id none) [ ok _ ↦ false | err _ ↦ true ]

-- From the choice of the workspace on.
unfoldable pub create_for :
    Runtime
    → Texts
    → Environment
    → WithdrawalData
    → User
    → Store
    → Result OperationsError WithdrawalRequest × Store
create_for rt texts env x user s = elim (workspace_for s.directory user.id) [
  | err e ↦ (err e, s)
  | ok w ↦
      if is_refused env user w s then (err context_denied, s) else create_in rt texts env x user w s
]

unfoldable pub create_once :
    Runtime
    → Texts
    → Environment
    → WithdrawalData
    → User
    → Store
    → Result OperationsError WithdrawalRequest × Store
create_once rt texts env x user s =
    if not env.within_rate
    then (err rate_limited, s)
    else if other_name env x user
    then (err identity_mismatch, s)
    else create_for rt texts env x user s
