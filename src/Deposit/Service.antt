-- ===== src/Deposit/Service.antt =====
-- `DepositAccountingService` of app/services/deposit_accounting.py. Its `_target` is the code of
-- the trades' one. The idempotency key is the caller's, so that another session can win the
-- posting: `race` is then its database.
use arima_executive_os.Common.{
  ℕ, Bool, false, not, Option, none, some, List, [], ◌∷◌, String, str_eq, ℤ, pos, leb_ℤ,
  if◌then◌else◌, find_first, Result, ok, err, ◌>>=◌, ◌>>◌, raise_if,
}
use arima_executive_os.Identity.{User, Directory}
use arima_executive_os.Ledger.Tables.{
  Direction, debit, credit, available, customer, clearing, Account, Value, text, fields, get,
  Provenance, Transaction, Entry, LedgerLine, Db, LedgerError, Request,
}
use arima_executive_os.Ledger.Service.{
  account_in_transaction, find_transaction, post, same_direction, value_eq,
}
use arima_executive_os.Ledger.Movements.{entries_of}
use arima_executive_os.Accounting.Decimals.{amount}
use arima_executive_os.Accounting.Tables.{AccountingError, Platform}
use arima_executive_os.Accounting.Service.{find_target, normalize_asset, quantized}

pub record DepositCreate : Type 0 where
  pub asset : String
  pub amount : ℤ
  pub reference : String
  pub reason : String
  pub idempotency_key : String

-- What `deposit_fingerprint` digests.
pub record DepositPayload : Type 0 where
  pub target_user_id : ℕ
  pub workspace_id : ℕ
  pub asset : String
  pub amount : ℤ
  pub reference : String
  pub reason : String

pub record DepositResult : Type 0 where
  pub id : ℕ
  pub workspace_id : ℕ
  pub target_user_id : ℕ
  pub founder_actor_id : ℕ
  pub asset : String
  pub amount : ℤ
  pub reference : String
  pub reason : String
  pub idempotency_key : String
  pub financial_transaction_id : ℕ
  pub financial_account_id : ℕ

pub data DepositError : Type 0 where
  not_positive key_conflict incomplete malformed : DepositError
  refused : AccountingError → DepositError
  ledger_refused : LedgerError → DepositError

abbrev pub within {ℓ} : {A : Type ℓ} → Result AccountingError A → Result DepositError A
within (ok a) = ok a
within (err e) = err (refused e)

-- The parties and the amount of a deposit, checked.
pub record DepositTerms : Type 0 where
  pub actor : ℕ
  pub target : ℕ
  pub workspace : ℕ
  pub asset : String
  pub amount : ℤ
  pub fingerprint : String

unfoldable pub deposit_terms :
    Platform
    → (DepositPayload → String)
    → Directory
    → User
    → ℕ
    → DepositCreate
    → Result DepositError DepositTerms
deposit_terms pf digest dir actor target_user_id x =
    within (find_target dir actor target_user_id) >>= λ (target, w).
    within (normalize_asset pf x.asset) >>= λ asset.
    within (quantized (amount x.amount)) >>= λ value.
    raise_if (leb_ℤ value (pos 0)) not_positive
    >> ok (record {
      actor = actor.id;
      target = target.id;
      workspace = w.id;
      asset = asset;
      amount = value;
      fingerprint = digest (record {
        target_user_id = target.id;
        workspace_id = w.id;
        asset = asset;
        amount = x.amount;
        reference = x.reference;
        reason = x.reason;
      });
    })

-- `(provenance.get("deposit") or {}).get("reason", "")`
abbrev pub find_text : String → List (String × String) → String
find_text k [] = ""
find_text k ((j, v) ∷ p) = if str_eq j k then v else find_text k p

abbrev pub reason_of : Option Value → Result DepositError String
reason_of none = ok ""
reason_of (some (fields p)) = ok (find_text "reason" p)
reason_of (some (text s)) = err malformed

abbrev pub is_bound_to : String → Option Value → Bool
is_bound_to fp none = false
is_bound_to fp (some v) = value_eq v fp

abbrev pub is_credit : Entry → Bool
is_credit e = same_direction e.direction credit

abbrev pub text_or_empty : Option String → String
text_or_empty none = ""
text_or_empty (some s) = s

-- `transaction.actor_id or transaction.user_id`
abbrev pub actor_or : Option ℕ → ℕ → ℕ
actor_or none user = user
actor_or (some actor) user = actor

unfoldable pub result_of : Transaction → ℕ → Entry → Result DepositError DepositResult
result_of t user e = reason_of (get "deposit" t.provenance) >>= λ reason. ok (record {
  id = t.id;
  workspace_id = t.workspace_id;
  target_user_id = user;
  founder_actor_id = actor_or t.actor_id user;
  asset = e.asset;
  amount = e.amount;
  reference = text_or_empty t.reference;
  reason = reason;
  idempotency_key = t.idempotency_key;
  financial_transaction_id = t.id;
  financial_account_id = e.account_id;
})

-- `_existing`, once the transaction of the key is found.
unfoldable pub read_existing : String → Transaction → Db → Result DepositError DepositResult
read_existing fp t db =
    if not (is_bound_to fp (get "deposit_payload_fingerprint" t.provenance))
    then err key_conflict
    else elim (find_first is_credit (entries_of t.id db)) [
      | none ↦ err incomplete
      | some e ↦ elim t.user_id [ none ↦ err incomplete | some user ↦ result_of t user e ]
    ]

abbrev pub deposit_line : Account → String → Direction → ℤ → String → LedgerLine
deposit_line a asset direction x memo = record {
  account_id = a.id;
  asset = asset;
  direction = direction;
  bucket = available;
  amount = x;
  memo = some memo;
}

abbrev pub deposit_provenance : DepositTerms → DepositCreate → Provenance
deposit_provenance d x =
    ("deposit_payload_fingerprint", text d.fingerprint)
    ∷ (
      "deposit",
      fields (
          ("provenance", "FOUNDER_MANUAL_DEPOSIT")
          ∷ ("reason", x.reason)
          ∷ ("reference", x.reference)
          ∷ ("source_account_kind", "clearing")
          ∷ []),
    )
    ∷ []

abbrev pub deposit_request : DepositTerms → DepositCreate → Account → Account → Request
deposit_request d x to from = record {
  workspace_id = d.workspace;
  user_id = some d.target;
  actor_id = some d.actor;
  transaction_type = "deposit";
  idempotency_key = x.idempotency_key;
  source = "founder_manual_deposit";
  lines =
      deposit_line from d.asset debit d.amount "founder manual deposit source"
      ∷ deposit_line to d.asset credit d.amount "founder manual deposit customer credit"
      ∷ [];
  reference = some x.reference;
  provenance = deposit_provenance d x;
  trade_id = none;
}

abbrev pub audit_deposit : ℕ → ℕ → Db → Db
audit_deposit actor id db = record db {
  audits =
      record { actor_id = actor; event_type = "FOUNDER_MANUAL_DEPOSIT_RECORDED"; entity_id = id }
      ∷ db.audits;
}

-- What a rollback leaves: the rows before the call, or those that another session has committed.
abbrev pub rolled_back : Option Db → Db → Db
rolled_back none before = before
rolled_back (some others) before = others

-- The end of `record`: an exception of the ledger rolls everything back.
abbrev pub deposited :
    DepositTerms
    → DepositCreate
    → Account
    → Db
    → Result LedgerError Transaction × Db
    → Result DepositError DepositResult × Db
deposited d x to before (err e, db) = (err (ledger_refused e), before)
deposited d x to before (ok t, db) = (
  ok (record {
    id = t.id;
    workspace_id = d.workspace;
    target_user_id = d.target;
    founder_actor_id = d.actor;
    asset = d.asset;
    amount = d.amount;
    reference = x.reference;
    reason = x.reason;
    idempotency_key = x.idempotency_key;
    financial_transaction_id = t.id;
    financial_account_id = to.id;
  }),
  audit_deposit d.actor t.id db,
)

unfoldable pub deposit_new :
    Platform
    → Option Db
    → DepositTerms
    → DepositCreate
    → Db
    → Result DepositError DepositResult × Db
deposit_new pf race d x db =
    let (to, db1) =
      account_in_transaction pf.ledger d.workspace (some d.target) d.asset customer db in
    let (from, db2) = account_in_transaction pf.ledger d.workspace none d.asset clearing db1 in
    deposited d x to (rolled_back race db) (post pf.ledger race (deposit_request d x to from) db2)

unfoldable pub deposit_checked :
    Platform
    → Option Db
    → DepositTerms
    → DepositCreate
    → Db
    → Result DepositError DepositResult × Db
deposit_checked pf race d x db = elim (find_transaction d.workspace x.idempotency_key db) [
  | some t ↦ (read_existing d.fingerprint t db, db)
  | none ↦ deposit_new pf race d x db
]

-- `record`
unfoldable pub record_deposit :
    Platform
    → (DepositPayload → String)
    → Option Db
    → Directory
    → User
    → ℕ
    → DepositCreate
    → Db
    → Result DepositError DepositResult × Db
record_deposit pf digest race dir actor target_user_id x db =
    elim (deposit_terms pf digest dir actor target_user_id x) [
      | err e ↦ (err e, db)
      | ok d ↦ deposit_checked pf race d x db
    ]
