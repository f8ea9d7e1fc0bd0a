-- ===== src/Accounting/Service.antt =====
-- The steps of `TradeAccountingService.record` of app/services/trade_accounting.py up to the
-- position after the trade, and the assets of app/services/assets.py.
use arima_executive_os.Common.{
  ℕ, ◌+◌, ◌==◌, Bool, true, false, ◌&&◌, ◌||◌, Option, none, some, List, [], ◌∷◌, String, str_eq, ℤ,
  pos, ltb_ℤ, leb_ℤ, if◌then◌else◌, is_none, find_first, Result, ok, err, ◌>>=◌,
}
use arima_executive_os.Identity.{User, Workspace, Directory, find_user, resolve, has_text}
use arima_executive_os.Withdrawal.Workspaces.{workspace_rows}
use arima_executive_os.Ledger.Tables.{LedgerError, customer, clearing, Account, Db}
use arima_executive_os.Ledger.Service.{account}
use arima_executive_os.Accounting.Decimals.{
  amount, times, plus, minus, over, quantize_amount, Decimal,
}
use arima_executive_os.Accounting.Tables.{
  ledger_refused, Side, buy, sell, Portfolio, Holding, PortfolioPosition, SettledTrade, Store,
  TradeCreate, AccountingError, no_customer, workspace_unavailable, context_denied,
  unsupported_asset, invalid_operation, key_conflict, invalid_amounts, no_average_cost, Platform,
}

abbrev pub supported_assets : List String
supported_assets = "BTC" ∷ "ETH" ∷ "USD" ∷ []

unfoldable pub normalize_asset : Platform → String → Result AccountingError String
normalize_asset pf value =
    let asset = pf.ledger.upper (pf.strip value) in
    if has_text asset supported_assets then ok asset else err unsupported_asset

unfoldable pub trade_fingerprint : Platform → ℕ → ℕ → TradeCreate → String → String
trade_fingerprint pf target workspace x fee_asset = pf.trade_digest (record {
  target_user_id = target;
  workspace_id = workspace;
  side = x.side;
  base_asset = x.base_asset;
  quote_asset = x.quote_asset;
  quantity = x.quantity;
  price = x.price;
  fee_asset = fee_asset;
  fee_amount = x.fee_amount;
  executed_at = x.executed_at;
  external_execution_id = x.external_execution_id;
  reason = x.reason;
})

-- `len(workspaces) != 1`
abbrev pub the_workspace : List Workspace → Result AccountingError Workspace
the_workspace [] = err workspace_unavailable
the_workspace (w ∷ []) = ok w
the_workspace (w ∷ v ∷ ws) = err workspace_unavailable

-- `_target`: the customer, and the one workspace in which the actor may act for them.
unfoldable pub find_target : Directory → User → ℕ → Result AccountingError (User × Workspace)
find_target d actor target_user_id = elim (find_user target_user_id d) [
  | none ↦ err no_customer
  | some target ↦ the_workspace (workspace_rows d target_user_id d.workspaces) >>= λ w.
      elim (resolve d actor w.id target_user_id none) [
        | err _ ↦ err context_denied
        | ok _ ↦ ok (target, w)
      ]
]

abbrev pub find_portfolio : ℕ → ℕ → Store → Option Portfolio
find_portfolio ws user s = find_first (λ p. p.workspace_id == ws && p.user_id == user) s.portfolios

abbrev pub has_place : ℕ → String → PortfolioPosition → Bool
has_place portfolio asset p = p.portfolio_id == portfolio && str_eq p.asset asset

abbrev pub find_position : ℕ → String → Store → Option PortfolioPosition
find_position portfolio asset s = find_first (has_place portfolio asset) s.positions

abbrev pub take_id : Store → Store
take_id s = record s { ledger = record s.ledger { next_id = s.ledger.next_id + 1 } }

abbrev pub portfolio_in : ℕ → ℕ → Store → Portfolio × Store
portfolio_in ws user s = elim (find_portfolio ws user s) [
  | some p ↦ (p, s)
  | none ↦
      let p : Portfolio = record { id = s.ledger.next_id; workspace_id = ws; user_id = user } in
      (p, record (take_id s) { portfolios = p ∷ s.portfolios })
]

abbrev pub empty_holding : Holding
empty_holding = record { quantity = pos 0; average_cost = none; realized_pnl = pos 0 }

abbrev pub position_in : ℕ → String → Store → PortfolioPosition × Store
position_in portfolio asset s = elim (find_position portfolio asset s) [
  | some p ↦ (p, s)
  | none ↦
      let p : PortfolioPosition = record {
        id = s.ledger.next_id;
        portfolio_id = portfolio;
        asset = asset;
        holding = empty_holding;
        unrealized_pnl = pos 0;
      } in
      (p, record (take_id s) { positions = p ∷ s.positions })
]

-- `_position`: both rows are created where they are missing.
unfoldable pub open_position : ℕ → ℕ → String → Store → PortfolioPosition × Store
open_position ws user asset s = let (p, s') = portfolio_in ws user s in position_in p.id asset s'

-- `_existing`: the trade under that key, which must have been asked for in the same words.
unfoldable pub find_existing :
    ℕ → String → String → Store → Result AccountingError (Option SettledTrade)
find_existing ws key fp s =
    elim (find_first (λ t. t.workspace_id == ws && str_eq t.idempotency_key key) s.trades) [
      | none ↦ ok none
      | some t ↦ if str_eq t.payload_fingerprint fp then ok (some t) else err key_conflict
    ]

abbrev pub quantized : Decimal → Result AccountingError ℤ
quantized x = quantize_amount invalid_operation x

pub record Terms : Type 0 where
  pub quantity : ℤ
  pub price : ℤ
  pub fee : ℤ
  pub quote_value : ℤ

abbrev pub is_sell : Side → Bool
is_sell buy = false
is_sell sell = true

unfoldable pub terms_of : TradeCreate → Result AccountingError Terms
terms_of x = quantized (amount x.quantity) >>= λ quantity. quantized (amount x.price) >>= λ price.
    quantized (amount x.fee_amount) >>= λ fee.
    quantized (times (amount quantity) (amount price)) >>= λ quote_value.
    if leb_ℤ quote_value (pos 0) || ltb_ℤ fee (pos 0) || (is_sell x.side && leb_ℤ quote_value fee)
    then err invalid_amounts
    else ok (record { quantity = quantity; price = price; fee = fee; quote_value = quote_value })

abbrev pub quantized_cost : Option ℤ → Result AccountingError (Option ℤ)
quantized_cost none = ok none
quantized_cost (some c) = quantized (amount c) >>= λ q. ok (some q)

-- The position before the trade.
unfoldable pub holding_before : Holding → Result AccountingError Holding
holding_before h = quantized (amount h.quantity) >>= λ quantity.
    quantized_cost h.average_cost >>= λ cost. quantized (amount h.realized_pnl) >>= λ realized.
    if ltb_ℤ (pos 0) quantity && is_none cost
    then err no_average_cost
    else ok (record { quantity = quantity; average_cost = cost; realized_pnl = realized })

-- `before_average or Decimal("0")`
abbrev pub cost_or_zero : Option ℤ → ℤ
cost_or_zero none = pos 0
cost_or_zero (some c) = c

-- The position after a buy, at the average cost of the whole.
unfoldable pub holding_bought : Terms → Holding → Result AccountingError Holding
holding_bought t h =
    let after_quantity = plus (amount h.quantity) (amount t.quantity) in
    let spent =
      plus
        (plus (times (amount h.quantity) (amount (cost_or_zero h.average_cost)))
          (amount t.quote_value))
        (amount t.fee) in
    quantized (over spent after_quantity) >>= λ cost. ok (record {
      quantity = after_quantity.coefficient;
      average_cost = some cost;
      realized_pnl = h.realized_pnl;
    })

-- The position after a sale, with the profit over its average cost.
unfoldable pub holding_sold : Platform → Terms → Holding → Holding
holding_sold pf t h =
    let after_quantity = (minus (amount h.quantity) (amount t.quantity)).coefficient in
    record {
      quantity = after_quantity;
      average_cost = if ltb_ℤ (pos 0) after_quantity then h.average_cost else none;
      realized_pnl = pf.column (
          minus (plus (amount h.realized_pnl) (minus (amount t.quote_value) (amount t.fee)))
            (times (amount t.quantity) (amount (cost_or_zero h.average_cost))));
    }

pub record Accounts : Type 0 where
  pub customer_quote : Account
  pub customer_base : Account
  pub clearing_quote : Account
  pub clearing_base : Account

-- The databases that other sessions have committed where the inserts of the accounts fail; `none` is
-- an insert that goes through.
pub record Races : Type 0 where
  pub customer_quote : Option Db
  pub customer_base : Option Db
  pub clearing_quote : Option Db
  pub clearing_base : Option Db

abbrev pub no_races : Races
no_races = record {
  customer_quote = none;
  customer_base = none;
  clearing_quote = none;
  clearing_base = none;
}

abbrev pub opened_in : Result LedgerError Account × Db → Result AccountingError (Account × Db)
opened_in (err e, db) = err (ledger_refused e)
opened_in (ok a, db) = ok (a, db)

unfoldable pub open_accounts :
    Platform → Races → ℕ → ℕ → String → String → Db → Result AccountingError (Accounts × Db)
open_accounts pf races ws user base quote db =
    opened_in (account pf.ledger races.customer_quote ws (some user) quote customer db)
    >>= λ (cq, db1).
        opened_in (account pf.ledger races.customer_base ws (some user) base customer db1)
        >>= λ (cb, db2).
            opened_in (account pf.ledger races.clearing_quote ws none quote clearing db2)
            >>= λ (kq, db3).
                opened_in (account pf.ledger races.clearing_base ws none base clearing db3)
                >>= λ (kb, db4). ok (
                  record {
                    customer_quote = cq;
                    customer_base = cb;
                    clearing_quote = kq;
                    clearing_base = kb;
                  },
                  db4,
                )
