-- ===== src/Accounting/Tables.antt =====
-- The rows of app/database/models/trade.py and of the portfolios and positions of
-- app/database/models/financial.py, the arguments of app/schemas/trades.py, and the exceptions of
-- app/services/trade_accounting.py. A column of type `Numeric(38, 18)` is a number of quanta.
use arima_executive_os.Common.{ℕ, Option, List, String, ℤ}
use arima_executive_os.Ledger.Tables.{Db, LedgerError, Runtime}
use arima_executive_os.Accounting.Decimals.{Decimal}

pub data Side : Type 0 where
  buy sell : Side

pub data TradeStatus : Type 0 where
  recorded reversed : TradeStatus

pub record Portfolio : Type 0 where
  pub id : ℕ
  pub workspace_id : ℕ
  pub user_id : ℕ

-- What a position holds: its quantity, average cost and realized profit.
pub record Holding : Type 0 where
  pub quantity : ℤ
  pub average_cost : Option ℤ
  pub realized_pnl : ℤ

pub record PortfolioPosition : Type 0 where
  pub id : ℕ
  pub portfolio_id : ℕ
  pub asset : String
  pub holding : Holding
  pub unrealized_pnl : ℤ

-- The columns `position_before_…` and `position_after_…` are `before` and `after`.
pub record SettledTrade : Type 0 where
  pub id : ℕ
  pub workspace_id : ℕ
  pub target_user_id : ℕ
  pub founder_actor_id : ℕ
  pub reversal_of_id : Option ℕ
  pub side : Side
  pub base_asset : String
  pub quote_asset : String
  pub quantity : ℤ
  pub price : ℤ
  pub quote_value : ℤ
  pub fee_asset : String
  pub fee_amount : ℤ
  pub executed_at : ℕ
  pub status : TradeStatus
  pub external_execution_id : Option String
  pub idempotency_key : String
  pub payload_fingerprint : String
  pub reason : String
  pub before : Holding
  pub after : Holding

-- The tables of one database; `ledger` also keeps the audit trail and the identifiers given out.
pub record Store : Type 0 where
  pub ledger : Db
  pub portfolios : List Portfolio
  pub positions : List PortfolioPosition
  pub trades : List SettledTrade

-- Amounts have at most 18 decimal places, and so are whole numbers of quanta.
pub record TradeCreate : Type 0 where
  pub side : Side
  pub base_asset : String
  pub quote_asset : String
  pub quantity : ℤ
  pub price : ℤ
  pub fee_amount : ℤ
  pub executed_at : ℕ
  pub reason : String
  pub idempotency_key : String
  pub external_execution_id : Option String

-- What `trade_fingerprint` digests.
pub record TradePayload : Type 0 where
  pub target_user_id : ℕ
  pub workspace_id : ℕ
  pub side : Side
  pub base_asset : String
  pub quote_asset : String
  pub quantity : ℤ
  pub price : ℤ
  pub fee_asset : String
  pub fee_amount : ℤ
  pub executed_at : ℕ
  pub external_execution_id : Option String
  pub reason : String

pub data AccountingError : Type 0 where
  no_customer workspace_unavailable context_denied unsupported_asset same_assets : AccountingError
  negative_fee invalid_operation key_conflict invalid_amounts no_average_cost : AccountingError
  insufficient_quote insufficient_base trade_not_found not_reversible : AccountingError
  position_unavailable position_moved negative_position invalid_quote account_unavailable :
      AccountingError
  negative_balance legs_incomplete : AccountingError
  ledger_refused : LedgerError → AccountingError

-- What the standard library and the database provide: `str.strip`, the digests of the two kinds of
-- payload, `str(uuid)`, the two kinds of key that are made of identifiers, and the number of quanta
-- that a `Numeric(38, 18)` column keeps of a decimal.
pub record Platform : Type 0 where
  pub ledger : Runtime
  pub strip : String → String
  pub trade_digest : TradePayload → String
  pub reversal_digest : ℕ → String → String
  pub show_id : ℕ → String
  pub show_amount : ℤ → String
  pub quote_key : ℕ → String  -- `f"trade:{id}:quote"`
  pub base_key : ℕ → String  -- `f"trade:{id}:base"`
  pub reverse_key : ℕ → ℕ → String  -- `f"trade:{id}:reverse:{transaction}"`
  pub column : Decimal → ℤ
