-- ===== src/Deposit/Replay.antt =====
-- What a deposit of app/services/deposit_accounting.py leaves, and what comes of asking again.
use arima_executive_os.Common.{
  find_first, ℕ, ◌≡◌, Bool, none, String, str_eq, ℤ, pos, if◌then◌else◌, ok,
}
use arima_executive_os.Ledger.Tables.{Account, Transaction, Db}
use arima_executive_os.Ledger.Idempotency.{IsPosted}
use arima_executive_os.Accounting.Tables.{Platform}
use arima_executive_os.Deposit.Service.{
  DepositCreate, DepositResult, DepositTerms, deposit_request, deposited,
}

-- A deposit that has been made for the first time.
pub record IsDeposited (pf : Platform) (d : DepositTerms) (x : DepositCreate) (db : Db)
    (r : DepositResult) (db1 : Db) : Type 0 where
  pub to : Account
  pub from : Account
  pub opened : Db
  pub transactions_eq : opened.transactions ≡ db.transactions
  pub entries_eq : opened.entries ≡ db.entries
  pub transaction : Transaction
  pub after : Db
  pub posted : IsPosted pf.ledger (deposit_request d x to from) opened transaction after
  pub answer : deposited d x to db (ok transaction, after) ≡ (ok r, db1)

abbrev part : Bool → ℤ → ℤ
part b x = if b then x else pos 0

-- The answer that a deposit gives.
abbrev result_for : DepositTerms → DepositCreate → Account → ℕ → DepositResult
result_for d x to id = record {
  id = id;
  workspace_id = d.workspace;
  target_user_id = d.target;
  founder_actor_id = d.actor;
  asset = d.asset;
  amount = d.amount;
  reference = x.reference;
  reason = x.reason;
  idempotency_key = x.idempotency_key;
  financial_transaction_id = id;
  financial_account_id = to.id;
}

-- No transaction has the idempotency key.
abbrev pub HasNoKey : String → Db → Type 0
HasNoKey key db = find_first (λ t. str_eq t.idempotency_key key) db.transactions ≡ none
