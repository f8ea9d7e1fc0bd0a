-- ===== src/Accounting/Reverse.antt =====
-- `TradeAccountingService.reverse` of app/services/trade_accounting.py, one database transaction as
-- `record` is. The newest row of a table comes first.
use arima_executive_os.Common.{
  ℕ, ◌==◌, Bool, true, false, ◌&&◌, ◌||◌, not, Option, none, some, List, [], ◌∷◌, String, ℤ, pos,
  ltb_ℤ, leb_ℤ, eqb_ℤ, if◌then◌else◌, is_none, find_first, keep, opt_eq, Result, ok, err, ◌>>=◌,
  ◌>>◌, raise_if,
}
use arima_executive_os.Identity.{User, Directory}
use arima_executive_os.Ledger.Tables.{customer, Db, Transaction}
use arima_executive_os.Ledger.Service.{find_account}
use arima_executive_os.Ledger.Movements.{balance}
use arima_executive_os.Ledger.Movements.{reverse as reverse_transaction}
use arima_executive_os.Accounting.Decimals.{amount, plus, minus}
use arima_executive_os.Accounting.Tables.{
  Side, buy, sell, TradeStatus, recorded, reversed, Holding, PortfolioPosition, SettledTrade, Store,
  AccountingError, trade_not_found, not_reversible, position_unavailable, position_moved,
  negative_position, invalid_quote, account_unavailable, negative_balance, legs_incomplete,
  Platform,
}
use arima_executive_os.Accounting.Service.{
  find_target, find_portfolio, find_position, take_id, find_existing, quantized,
}
use arima_executive_os.Accounting.Record.{posted_in, write_position, audit_trade, committed}

-- `_existing_position`: no row is created.
abbrev pub existing_position : ℕ → ℕ → String → Store → Option PortfolioPosition
existing_position ws user asset s = elim (find_portfolio ws user s) [
  | none ↦ none
  | some p ↦ find_position p.id asset s
]

abbrev pub is_trade_of : ℕ → ℕ → ℕ → SettledTrade → Bool
is_trade_of id ws user t = t.id == id && t.workspace_id == ws && t.target_user_id == user

abbrev pub is_recorded : TradeStatus → Bool
is_recorded recorded = true
is_recorded reversed = false

abbrev pub same_cost : Option ℤ → Option ℤ → Bool
same_cost none none = true
same_cost none (some b) = false
same_cost (some a) none = false
same_cost (some a) (some b) = eqb_ℤ a b

-- The position is still the one that the trade left.
unfoldable pub check_position : Holding → Holding → Result AccountingError (Unit {0})
check_position h after = quantized (amount h.quantity) >>= λ q.
    quantized (amount after.quantity) >>= λ q'.
    raise_if (not (eqb_ℤ q q') || not (same_cost h.average_cost after.average_cost)) position_moved
    >> (quantized (amount h.realized_pnl) >>= λ r.
        quantized (amount after.realized_pnl) >>= λ r'. raise_if (not (eqb_ℤ r r')) position_moved)

abbrev pub inverse_quote_total : SettledTrade → ℤ
inverse_quote_total t = elim t.side [
  | buy ↦ (plus (amount t.quote_value) (amount t.fee_amount)).coefficient
  | sell ↦ (minus (amount t.quote_value) (amount t.fee_amount)).coefficient
]

abbrev pub is_buy : Side → Bool
is_buy buy = true
is_buy sell = false

-- What the customer received in the trade is still available on the account that received it.
unfoldable pub check_cover :
    Platform → SettledTrade → Holding → ℤ → Db → Result AccountingError (Unit {0})
check_cover pf t h total db =
    let asset = if is_buy t.side then t.base_asset else t.quote_asset in
    let affected = if is_buy t.side then t.quantity else total in
    elim (find_account t.workspace_id (some t.target_user_id) asset customer db) [
      | none ↦ err account_unavailable
      | some a ↦
          raise_if (ltb_ℤ (balance pf.ledger a.id asset db).available_balance affected)
            negative_balance
          >> (if is_buy t.side
              then (quantized (minus (amount h.quantity) (amount t.quantity)) >>= λ q.
                  raise_if (ltb_ℤ q (pos 0)) negative_position)
              else ok tt)
    ]

-- The checks of the recorded position and of what it takes to undo the trade.
unfoldable pub check_reversible :
    Platform → SettledTrade → Holding → Db → Result AccountingError (Unit {0})
check_reversible pf t h db =
    check_position h t.after
    >> raise_if (ltb_ℤ t.before.quantity (pos 0)) negative_position
    >> (quantized (amount (inverse_quote_total t)) >>= λ total.
        raise_if (leb_ℤ total (pos 0)) invalid_quote >> check_cover pf t h total db)

abbrev pub is_reversible : SettledTrade → Bool
is_reversible t = is_recorded t.status && is_none t.reversal_of_id

abbrev pub reversal_trade : SettledTrade → ℕ → String → String → String → ℕ → SettledTrade
reversal_trade t actor key fp reason id = record t {
  id = id;
  founder_actor_id = actor;
  reversal_of_id = some t.id;
  status = recorded;
  idempotency_key = key;
  payload_fingerprint = fp;
  reason = reason;
  before = t.after;
  after = t.before;
}

abbrev pub transactions_of : ℕ → Db → List Transaction
transactions_of trade db = keep (λ t. opt_eq t.trade_id (some trade)) db.transactions

abbrev pub reverse_leg : Platform → ℕ → ℕ → String → ℕ → Db → Result AccountingError Db
reverse_leg pf actor id reason tid db = posted_in (
    reverse_transaction pf.ledger pf.show_id none tid actor (pf.reverse_key id tid) reason (some id)
      db)

-- The two transactions of the trade, the older one first.
unfoldable pub reverse_legs :
    Platform → ℕ → ℕ → String → List Transaction → Db → Result AccountingError Db
reverse_legs pf actor id reason (second ∷ first ∷ []) db =
    reverse_leg pf actor id reason first.id db >>= λ db1.
    reverse_leg pf actor id reason second.id db1
reverse_legs pf actor id reason _ db = err legs_incomplete

-- `original.status = REVERSED`
unfoldable pub mark_trade : ℕ → List SettledTrade → List SettledTrade
mark_trade id [] = []
mark_trade id (t ∷ ts) =
    let rest = mark_trade id ts in
    if t.id == id then record t { status = reversed } ∷ rest else t ∷ rest

unfoldable pub undo :
    Platform
    → SettledTrade
    → PortfolioPosition
    → ℕ
    → String
    → String
    → String
    → Store
    → Result AccountingError (SettledTrade × Store)
undo pf t p actor key fp reason s =
    let id = s.ledger.next_id in
    let reversal = reversal_trade t actor key fp reason id in
    reverse_legs pf actor id reason (transactions_of t.id s.ledger) (take_id s).ledger >>= λ db.
    ok (
      reversal,
      record s {
        ledger = audit_trade actor "FOUNDER_TRADE_REVERSED" id db;
        positions = write_position p.id t.before s.positions;
        trades = reversal ∷ mark_trade t.id s.trades;
      },
    )

unfoldable pub reverse_new :
    Platform
    → SettledTrade
    → ℕ
    → String
    → String
    → String
    → Store
    → Result AccountingError (SettledTrade × Store)
reverse_new pf t actor key fp reason s =
    if not (is_reversible t)
    then err not_reversible
    else elim (existing_position t.workspace_id t.target_user_id t.base_asset s) [
      | none ↦ err position_unavailable
      | some p ↦ check_reversible pf t p.holding s.ledger >> undo pf t p actor key fp reason s
    ]

unfoldable pub reverse_checked :
    Platform
    → ℕ
    → ℕ
    → ℕ
    → ℕ
    → String
    → String
    → Store
    → Result AccountingError (SettledTrade × Store)
reverse_checked pf actor user ws trade_id key reason s =
    elim (find_first (is_trade_of trade_id ws user) s.trades) [
      | none ↦ err trade_not_found
      | some t ↦
          let fp = pf.reversal_digest trade_id reason in
          find_existing ws key fp s >>= λ found. elim found [
            | some r ↦ ok (r, s)
            | none ↦ reverse_new pf t actor key fp reason s
          ]
    ]

-- `reverse`
unfoldable pub reverse_trade :
    Platform
    → Directory
    → User
    → ℕ
    → ℕ
    → String
    → String
    → Store
    → Result AccountingError SettledTrade × Store
reverse_trade pf dir actor target_user_id trade_id key reason s = committed s (
    find_target dir actor target_user_id >>= λ (target, w).
    reverse_checked pf actor.id target.id w.id trade_id key reason s)
