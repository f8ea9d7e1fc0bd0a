-- ===== src/Accounting/Record.antt =====
-- `TradeAccountingService.record` of app/services/trade_accounting.py, from the balance checks to
-- the rows it writes. The whole method is one database transaction: an exception leaves the store as
-- it was. Keys are made of the identifier that the trade takes, so that no other session can insert
-- their rows first.
use arima_executive_os.Common.{
  ℕ, ◌==◌, ◌&&◌, ◌||◌, none, some, List, [], ◌∷◌, String, str_eq, ℤ, pos, ltb_ℤ, if◌then◌else◌,
  is_none, Result, ok, err, ◌>>=◌, ◌>>◌, raise_if,
}
use arima_executive_os.Identity.{User, Directory}
use arima_executive_os.Ledger.Tables.{
  Direction, debit, credit, available, Account, text, LedgerLine, Db, LedgerError, Request,
  Provenance, Transaction,
}
use arima_executive_os.Ledger.Service.{post}
use arima_executive_os.Ledger.Movements.{balance}
use arima_executive_os.Accounting.Decimals.{amount, plus, minus}
use arima_executive_os.Accounting.Tables.{
  Side, buy, sell, recorded, Holding, PortfolioPosition, SettledTrade, Store, TradeCreate,
  AccountingError, same_assets, negative_fee, no_average_cost, insufficient_quote,
  insufficient_base, ledger_refused, Platform,
}
use arima_executive_os.Accounting.Service.{
  normalize_asset, trade_fingerprint, find_target, take_id, open_position, find_existing, Terms,
  terms_of, holding_before, holding_bought, holding_sold, Accounts, Races, open_accounts,
}

abbrev pub line : Account → String → Direction → ℤ → String → LedgerLine
line a asset direction x memo = record {
  account_id = a.id;
  asset = asset;
  direction = direction;
  bucket = available;
  amount = x;
  memo = some memo;
}

abbrev pub memo_of : Side → String
memo_of buy = "manual trade buy"
memo_of sell = "manual trade sell"

-- `x` of the asset goes from the one account to the other.
abbrev pub leg : Side → String → ℤ → Account → Account → List LedgerLine
leg side asset x from to =
    line from asset debit x (memo_of side) ∷ line to asset credit x (memo_of side) ∷ []

-- A buyer pays the fee on top of the value, a seller out of it.
abbrev pub quote_total : Side → Terms → ℤ
quote_total buy t = (plus (amount t.quote_value) (amount t.fee)).coefficient
quote_total sell t = (minus (amount t.quote_value) (amount t.fee)).coefficient

abbrev pub quote_leg : Side → Accounts → String → Terms → List LedgerLine
quote_leg buy a quote t = leg buy quote (quote_total buy t) a.customer_quote a.clearing_quote
quote_leg sell a quote t = leg sell quote (quote_total sell t) a.clearing_quote a.customer_quote

abbrev pub base_leg : Side → Accounts → String → Terms → List LedgerLine
base_leg buy a base t = leg buy base t.quantity a.clearing_base a.customer_base
base_leg sell a base t = leg sell base t.quantity a.customer_base a.clearing_base

-- The cover of the trade, and the position after it.
unfoldable pub holding_after :
    Platform
    → Side
    → Accounts
    → String
    → String
    → Terms
    → Holding
    → Db
    → Result AccountingError Holding
holding_after pf buy a base quote t h db =
    if ltb_ℤ (balance pf.ledger a.customer_quote.id quote db).available_balance (quote_total buy t)
    then err insufficient_quote
    else holding_bought t h
holding_after pf sell a base quote t h db =
    if ltb_ℤ h.quantity t.quantity
      || ltb_ℤ (balance pf.ledger a.customer_base.id base db).available_balance t.quantity
    then err insufficient_base
    else if is_none h.average_cost && ltb_ℤ (pos 0) h.quantity
    then err no_average_cost
    else ok (holding_sold pf t h)

-- What the call names, checked: the parties and the two assets.
pub record Deal : Type 0 where
  pub actor : ℕ
  pub target : ℕ
  pub workspace : ℕ
  pub base : String
  pub quote : String
  pub fingerprint : String
  pub races : Races

abbrev pub new_trade : Deal → TradeCreate → Terms → Holding → Holding → ℕ → SettledTrade
new_trade d x t h h' id = record {
  id = id;
  workspace_id = d.workspace;
  target_user_id = d.target;
  founder_actor_id = d.actor;
  reversal_of_id = none;
  side = x.side;
  base_asset = d.base;
  quote_asset = d.quote;
  quantity = t.quantity;
  price = t.price;
  quote_value = t.quote_value;
  fee_asset = d.quote;
  fee_amount = t.fee;
  executed_at = x.executed_at;
  status = recorded;
  external_execution_id = x.external_execution_id;
  idempotency_key = x.idempotency_key;
  payload_fingerprint = d.fingerprint;
  reason = x.reason;
  before = h;
  after = h';
}

-- The arguments of the two postings of a trade.
abbrev pub trade_request :
    Platform → Deal → ℕ → String → String → Provenance → List LedgerLine → Request
trade_request pf d id type key more lines = record {
  workspace_id = d.workspace;
  user_id = some d.target;
  actor_id = some d.actor;
  transaction_type = type;
  idempotency_key = key;
  source = "manual_trade";
  lines = lines;
  reference = some (pf.show_id id);
  provenance = ("trade_id", text (pf.show_id id)) ∷ more;
  trade_id = some id;
}

abbrev pub quote_request : Platform → Deal → Side → ℕ → Accounts → Terms → Request
quote_request pf d side id a t =
    trade_request pf d id "trade_quote_leg" (pf.quote_key id)
      (("fee_asset", text d.quote) ∷ ("fee_amount", text (pf.show_amount t.fee)) ∷ [])
      (quote_leg side a d.quote t)

abbrev pub base_request : Platform → Deal → Side → ℕ → Accounts → Terms → Request
base_request pf d side id a t =
    trade_request pf d id "trade_base_leg" (pf.base_key id) [] (base_leg side a d.base t)

-- The answer of the ledger, where an exception ends the trade.
abbrev pub posted_in : Result LedgerError Transaction × Db → Result AccountingError Db
posted_in (err e, db) = err (ledger_refused e)
posted_in (ok t, db) = ok db

unfoldable pub post_legs :
    Platform → Deal → Side → ℕ → Accounts → Terms → Db → Result AccountingError Db
post_legs pf d side id a t db =
    posted_in (post pf.ledger none (quote_request pf d side id a t) db) >>= λ db1.
    posted_in (post pf.ledger none (base_request pf d side id a t) db1)

abbrev pub set_holding : Holding → PortfolioPosition → PortfolioPosition
set_holding h p = record p { holding = h }

-- `position.quantity, position.average_cost, position.realized_pnl = …` on the row of that identifier.
unfoldable pub write_position : ℕ → Holding → List PortfolioPosition → List PortfolioPosition
write_position id h [] = []
write_position id h (p ∷ ps) =
    let rest = write_position id h ps in if p.id == id then set_holding h p ∷ rest else p ∷ rest

abbrev pub audit_trade : ℕ → String → ℕ → Db → Db
audit_trade actor event id db = record db {
  audits = record { actor_id = actor; event_type = event; entity_id = id } ∷ db.audits;
}

-- The trade's row, its postings, and the position it leaves.
unfoldable pub settle_trade :
    Platform
    → Deal
    → TradeCreate
    → Terms
    → PortfolioPosition
    → Holding
    → Holding
    → Accounts
    → Store
    → Result AccountingError (SettledTrade × Store)
settle_trade pf d x t p h h' a s =
    let id = s.ledger.next_id in
    let trade = new_trade d x t h h' id in
    post_legs pf d x.side id a t (take_id s).ledger >>= λ db. ok (
      trade,
      record s {
        ledger = audit_trade d.actor "FOUNDER_TRADE_RECORDED" id db;
        positions = write_position p.id h' s.positions;
        trades = trade ∷ s.trades;
      },
    )

-- The part of `record` that follows the search for an existing trade.
unfoldable pub record_new :
    Platform → Deal → TradeCreate → Store → Result AccountingError (SettledTrade × Store)
record_new pf d x s = terms_of x >>= λ t.
    let (p, s1) = open_position d.workspace d.target d.base s in
    holding_before p.holding >>= λ h.
    open_accounts pf d.races d.workspace d.target d.base d.quote s1.ledger >>= λ (a, db).
    holding_after pf x.side a d.base d.quote t h db >>= λ h'.
    settle_trade pf d x t p h h' a (record s1 { ledger = db })

-- The checks of `record` before it: who, where, and in which assets.
unfoldable pub deal_of :
    Platform → Directory → User → ℕ → TradeCreate → Races → Result AccountingError Deal
deal_of pf dir actor target_user_id x races =
    find_target dir actor target_user_id >>= λ (target, w).
    normalize_asset pf x.base_asset >>= λ base. normalize_asset pf x.quote_asset >>= λ quote.
    raise_if (str_eq base quote) same_assets
    >> raise_if (ltb_ℤ x.fee_amount (pos 0)) negative_fee
    >> ok (record {
      actor = actor.id;
      target = target.id;
      workspace = w.id;
      base = base;
      quote = quote;
      fingerprint = trade_fingerprint pf target.id w.id x quote;
      races = races;
    })

unfoldable pub record_checked :
    Platform → Deal → TradeCreate → Store → Result AccountingError (SettledTrade × Store)
record_checked pf d x s = find_existing d.workspace x.idempotency_key d.fingerprint s >>= λ found.
    elim found [ some t ↦ ok (t, s) | none ↦ record_new pf d x s ]

-- An exception rolls the session back.
abbrev pub committed :
    Store
    → Result AccountingError (SettledTrade × Store)
    → Result AccountingError SettledTrade × Store
committed s (err e) = (err e, s)
committed s (ok (t, s')) = (ok t, s')

-- `record`, a keyword here.
unfoldable pub record_trade :
    Platform
    → Directory
    → User
    → ℕ
    → TradeCreate
    → Races
    → Store
    → Result AccountingError SettledTrade × Store
record_trade pf dir actor target_user_id x races s =
    committed s (deal_of pf dir actor target_user_id x races >>= λ d. record_checked pf d x s)
