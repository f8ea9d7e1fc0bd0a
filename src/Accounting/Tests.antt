-- ===== src/Accounting/Tests.antt =====
-- A customer with a funded account buys and the trade is taken back: the methods of
-- app/services/trade_accounting.py on concrete rows.
use arima_executive_os.Common.{
  ◌==◌, ◌≡◌, refl, none, some, [], ◌∷◌, pos, ok, err, if◌then◌else◌, arith, List, ◌+ℤ◌, ◌-ℤ◌, ◌*ℤ◌,
  neg,
}
use arima_executive_os.Ledger.Tests.{runtime, funded, funded-IsBalanced}
use arima_executive_os.Ledger.Service.{
  account, account_missing, post, post_new, insert_rows, one_asset, direction_total, add_lines,
  ledger_request_fingerprint,
}
use arima_executive_os.Ledger.Movements.{
  balance, sum_where, signed, settled, mark_reversed, reverse,
}
use arima_executive_os.Ledger.Reversal.{Choice, chosen}
use arima_executive_os.Identity.{resolve, resolve_members, has_founder_control_access}
use arima_executive_os.Identity.Tests.{founder, directory}
use arima_executive_os.Decimals.{round_half_even, digits, significant, in_context}
use arima_executive_os.Withdrawal.Workspaces.{workspace_rows}
use arima_executive_os.Accounting.Decimals.{times, plus, over, quantize_amount}
use arima_executive_os.Accounting.Tables.{
  buy, sell, recorded, Store, TradeCreate, Platform, SettledTrade, insufficient_base,
}
use arima_executive_os.Accounting.Service.{
  no_races, empty_holding, find_target, normalize_asset, trade_fingerprint, find_existing, terms_of,
  open_position, holding_before, holding_bought, open_accounts,
}
use arima_executive_os.Accounting.Record.{
  record_trade, deal_of, record_checked, record_new, holding_after, settle_trade, post_legs,
  write_position,
}
use arima_executive_os.Accounting.Reverse.{
  reverse_trade, reverse_checked, reverse_new, undo, check_reversible, check_position, check_cover,
  reverse_legs, mark_trade,
}
use arima_executive_os.Accounting.Growth.{holding_of}
use arima_executive_os.Accounting.Soundness.{IsSoundStore}
use arima_executive_os.Accounting.Invariant.{
  run_trades, records, reverses, TradeCall, run_trades-IsSoundStore,
}
use arima_executive_os.Accounting.RoundTrip.{record_trade-reverse_trade}

abbrev pub platform : Platform
platform = record {
  ledger = runtime;
  strip = λ s. s;
  trade_digest = λ p. "trade";
  reversal_digest = λ t r. "reversal";
  show_id = λ n. "id";
  show_amount = λ x. "amount";
  quote_key = λ n. "trade-quote";
  base_key = λ n. "trade-base";
  reverse_key = λ n t. if◌then◌else◌ (t == 16) "reverse-16" "reverse-17";
  column = λ d. d.coefficient;
}

abbrev pub opened : Store
opened = record { ledger = funded; portfolios = []; positions = []; trades = [] }

-- One bitcoin, at 20 quanta of a dollar, with a fee of 3.
abbrev pub purchase : TradeCreate
purchase = record {
  side = buy;
  base_asset = "BTC";
  quote_asset = "USD";
  quantity = pos 1000000000000000000;
  price = pos 20;
  fee_amount = pos 3;
  executed_at = 4;
  reason = "order";
  idempotency_key = "purchase-0000001";
  external_execution_id = none;
}

abbrev after_purchase : Store
after_purchase = (record_trade platform directory founder 5 purchase no_races opened).1

abbrev purchase_trade : SettledTrade
purchase_trade = record {
  id = 15;
  workspace_id = 7;
  target_user_id = 5;
  founder_actor_id = 9;
  reversal_of_id = none;
  side = buy;
  base_asset = "BTC";
  quote_asset = "USD";
  quantity = pos 1000000000000000000;
  price = pos 20;
  quote_value = pos 20;
  fee_asset = "USD";
  fee_amount = pos 3;
  executed_at = 4;
  status = recorded;
  external_execution_id = none;
  idempotency_key = "purchase-0000001";
  payload_fingerprint = "trade";
  reason = "order";
  before = empty_holding;
  after = record {
    quantity = pos 1000000000000000000;
    average_cost = some (pos 23);
    realized_pnl = pos 0;
  };
}

purchased :
    record_trade platform directory founder 5 purchase no_races opened
    ≡ (ok purchase_trade, after_purchase)
unfolding record_trade deal_of find_target workspace_rows resolve resolve_members
    has_founder_control_access normalize_asset trade_fingerprint record_checked find_existing
    record_new terms_of quantize_amount times significant digits round_half_even open_position
    holding_before open_accounts account account_missing holding_after balance sum_where signed
    settled holding_bought plus over settle_trade post_legs post post_new insert_rows one_asset
    direction_total add_lines in_context ledger_request_fingerprint write_position neg ◌+ℤ◌ ◌-ℤ◌
    ◌*ℤ◌
purchased = refl

abbrev after_undo : Store
after_undo =
    (reverse_trade platform directory founder 5 15 "undo-purchase-01" "mistake" after_purchase).1

abbrev undo_trade : SettledTrade
undo_trade = record purchase_trade {
  id = 18;
  reversal_of_id = some 15;
  idempotency_key = "undo-purchase-01";
  payload_fingerprint = "reversal";
  reason = "mistake";
  before = purchase_trade.after;
  after = empty_holding;
}

undone :
    reverse_trade platform directory founder 5 15 "undo-purchase-01" "mistake" after_purchase
    ≡ (ok undo_trade, after_undo)
unfolding record_trade deal_of find_target workspace_rows resolve resolve_members
    has_founder_control_access normalize_asset trade_fingerprint record_checked find_existing
    record_new terms_of quantize_amount times significant digits round_half_even open_position
    holding_before open_accounts account account_missing holding_after balance sum_where signed
    settled holding_bought plus over settle_trade post_legs post post_new insert_rows one_asset
    direction_total add_lines in_context ledger_request_fingerprint write_position neg ◌+ℤ◌ ◌-ℤ◌
    ◌*ℤ◌ reverse_trade reverse_checked reverse_new undo check_reversible check_position check_cover
    reverse_legs mark_trade reverse mark_reversed
undone = refl

record_trade-reverse_trade_example :
    (holding_of 7 5 "BTC" after_undo ≡ holding_of 7 5 "BTC" opened)
    × ((q : Choice)
        → sum_where (chosen q) after_undo.ledger.entries
          ≡ sum_where (chosen q) opened.ledger.entries)
unfolding record_trade deal_of find_target workspace_rows resolve resolve_members
    has_founder_control_access normalize_asset trade_fingerprint record_checked find_existing
    record_new terms_of quantize_amount times significant digits round_half_even open_position
    holding_before open_accounts account account_missing holding_after balance sum_where signed
    settled holding_bought plus over settle_trade post_legs post post_new insert_rows one_asset
    direction_total add_lines in_context ledger_request_fingerprint write_position neg ◌+ℤ◌ ◌-ℤ◌
    ◌*ℤ◌
record_trade-reverse_trade_example =
    record_trade-reverse_trade platform directory founder founder 5 purchase "undo-purchase-01"
      "mistake" opened purchase_trade after_purchase undo_trade after_undo (omega arith) tt refl
      refl refl refl (record { quote = refl; base = refl; apart = refl })
      (record { free1 = refl; free2 = refl; apart = refl }) purchased undone

-- A sale that the position does not cover, then the purchase, its reversal, and a sale again.
abbrev calls : List TradeCall
calls =
    records founder 5 (record purchase { side = sell }) no_races
    ∷ records founder 5 purchase no_races
    ∷ reverses founder 5 15 "undo-purchase-01" "mistake"
    ∷ records founder 5 (record purchase { side = sell; idempotency_key = "sale-00000000002" })
        no_races
    ∷ []

opened-IsSoundStore : IsSoundStore opened
opened-IsSoundStore = record { positions = tt; trades = tt; balanced = funded-IsBalanced }

run_trades-IsSoundStore_example : IsSoundStore (run_trades platform directory calls opened)
run_trades-IsSoundStore_example =
    run_trades-IsSoundStore platform directory calls opened opened-IsSoundStore (omega arith)

sale_refused :
    (record_trade platform directory founder 5 (record purchase { side = sell }) no_races opened).0
    ≡ err insufficient_base
unfolding record_trade deal_of find_target workspace_rows resolve resolve_members
    has_founder_control_access normalize_asset trade_fingerprint record_checked find_existing
    record_new terms_of quantize_amount times significant digits round_half_even open_position
    holding_before open_accounts account account_missing holding_after balance sum_where signed
    settled holding_bought plus over settle_trade post_legs post post_new insert_rows one_asset
    direction_total add_lines in_context ledger_request_fingerprint write_position neg ◌+ℤ◌ ◌-ℤ◌
    ◌*ℤ◌
sale_refused = refl
