-- ===== src/Accounting/Invariant.antt =====
-- The positions and the books through any sequence of `record` and `reverse` of
-- app/services/trade_accounting.py.
use arima_executive_os.Common.{ℕ, pos, ◌<ℤ◌, List, [], ◌∷◌, String, All}
use arima_executive_os.Identity.{User, Directory}
use arima_executive_os.Accounting.Tables.{Store, TradeCreate, Platform}
use arima_executive_os.Accounting.Record.{record_trade}
use arima_executive_os.Accounting.Reverse.{reverse_trade}
use arima_executive_os.Accounting.Service.{Races}
use arima_executive_os.Accounting.Books.{AreBalanced}
use arima_executive_os.Accounting.Soundness.{
  IsSoundStore, record_trade-IsSoundStore, reverse_trade-IsSoundStore,
}

-- The calls that a founder makes.
pub data TradeCall : Type 0 where
  records : User → ℕ → TradeCreate → Races → TradeCall
  reverses : User → ℕ → ℕ → String → String → TradeCall

abbrev pub after_call : Platform → Directory → TradeCall → Store → Store
after_call pf dir (records actor target x races) s = (record_trade pf dir actor target x races s).1
after_call pf dir (reverses actor target trade_id key reason) s =
    (reverse_trade pf dir actor target trade_id key reason s).1

unfoldable pub run_trades : Platform → Directory → List TradeCall → Store → Store
run_trades pf dir [] s = s
run_trades pf dir (c ∷ cs) s = run_trades pf dir cs (after_call pf dir c s)

-- The schema of the call admits positive quantities only, and a session that wins a race leaves a
-- balanced database.
abbrev pub IsAdmitted : TradeCall → Type 0
IsAdmitted (records actor target x races) = (pos 0 <ℤ x.quantity) × AreBalanced races
IsAdmitted (reverses actor target trade_id key reason) = Unit

after_call-IsSoundStore :
    (pf : Platform) (dir : Directory) (c : TradeCall) (s : Store)
    → IsSoundStore s
    → IsAdmitted c
    → IsSoundStore (after_call pf dir c s)
after_call-IsSoundStore pf dir (records actor target x races) s k q =
    record_trade-IsSoundStore pf dir actor target x races s k q.0 q.1
after_call-IsSoundStore pf dir (reverses actor target trade_id key reason) s k q =
    reverse_trade-IsSoundStore pf dir actor target trade_id key reason s k

-- Through any sequence of recordings with positive quantities and of reversals, whatever their
-- outcomes, where the sessions that win a race against them leave balanced databases, no position and no position noted in a trade has a negative quantity, each with a
-- positive quantity has an average cost, and the ledger balances in every transaction and asset, if
-- all this holds at the start.
pub run_trades-IsSoundStore :
    (pf : Platform) (dir : Directory) (cs : List TradeCall) (s : Store)
    → IsSoundStore s
    → All IsAdmitted cs
    → IsSoundStore (run_trades pf dir cs s)
unfolding run_trades
run_trades-IsSoundStore pf dir [] s k q = k
run_trades-IsSoundStore pf dir (c ∷ cs) s k q =
    run_trades-IsSoundStore pf dir cs (after_call pf dir c s)
      (after_call-IsSoundStore pf dir c s k q.0) q.1
