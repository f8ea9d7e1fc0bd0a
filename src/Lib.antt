-- ===== src/Lib.antt =====
-- Arima Executive OS: its money, its trade proposals, its voice sessions and its background jobs.
--
-- The program is a web service. Its sessions read and write a relational database; the parts
-- modelled here are those that decide on money and permission, and they meet as follows.
--
--   * Ledger (app/services/ledger.py, app/database/models/financial.py): `LedgerService` posts
--     balanced double entries under idempotency keys, moves amounts between the buckets of an
--     account, and reverses transactions. `Ledger.Tables` is its state, `Db`; `Ledger.Service` is
--     `account` and `post`; `Ledger.Movements` is `balance`, `transfer_bucket` and `reverse`. The
--     other modules of that folder hold their lemmas.
--   * Identity (app/services/identity.py, app/services/permissions.py): `resolve` and `authorize`
--     establish that an actor may act for an account. Withdrawals and trade proposals call them.
--   * Withdrawal (app/services/operations.py, app/database/models/withdrawal.py): the state machine
--     of a withdrawal request and the circuit breaker of a workspace. `Withdrawal.Create` and
--     `Withdrawal.Retry` are `_create_once` and `create`, which reserve the amount in the ledger;
--     `Withdrawal.Service` is `transition`, which gives it back when a request ends unpaid;
--     `Withdrawal.Workspaces` is the query for a user's workspace; `Withdrawal.Circuit` is
--     `change_circuit`. `Withdrawal.Runs` is the step relation of all of them.
--   * Risk (app/services/risk_contract.py, app/quant/contracts.py): `TrustedRiskSnapshotBuilder` in
--     `Risk.Builder` and `RiskEngine.validate` in `Risk.Engine`; `Risk.Sizing` bounds its size.
--   * Trading (app/services/trading_contracts.py): `QTradeExecutionService.evaluate`, over the
--     directory, the circuit breakers and the engine.
--   * Accounting (app/services/trade_accounting.py, app/services/assets.py,
--     app/database/models/trade.py): `record` and `reverse` of a settled trade, which post two legs
--     to the ledger and move the customer's position. `Accounting.Decimals` has its
--     decimals and `quantize_amount`, `Accounting.Service` and `Accounting.Record` are `record` (here `record_trade`), and
--     `Accounting.Reverse` is `reverse`; the other modules of that folder hold their lemmas.
--   * Deposit (app/services/deposit_accounting.py): `record` of a founder's deposit, which posts to
--     the ledger, and the answer to its replay.
--   * Voice (app/voice/state.py, app/voice/session.py): the states of a voice session and the store
--     of sessions, where an update may work on a row that another database session has changed.
--   * Auth (app/auth/tokens.py, app/auth/security.py, app/auth/service.py,
--     app/database/repositories/refresh_token.py and security.py): `Auth.Tokens` signs and decodes
--     tokens, `Auth.Repository` holds the rows of refresh tokens and issues pairs, `Auth.Sessions` is
--     the exchange, the logout and the revocation of sessions, `Auth.Calls` any sequence of these, and
--     `Auth.Limiter` the fixed-window rate limiter.
--   * Background (app/background/permissions.py, policies.py, runner.py): who may run a job, and the
--     attempts of a run.
--
-- A table is a list of rows, a row is a record, and a query for one row is `find_first`. A method is
-- a function from the state to its result and the state that is committed. An exception is `err`
-- with a constructor for each message that the callers could tell apart; it discards what the
-- session has not committed, so the state is then that before the call. Identifiers are numbers,
-- new ones are taken from a counter. A call runs alone on the rows that it locks; where another
-- session can win an insert, that session's database is an argument.
--
-- Decimals are integers: amounts and prices count units of 10⁻¹⁸, as the columns do, and position
-- sizes units of 10⁻⁸. Sums, differences, products and quotients that the code computes with `Decimal`
-- round to 28 significant digits (`Decimals`), and `quantize` refuses what needs more; the database's
-- sums are exact. Only the difference of the sums in `balance` is not rounded, which agrees with the
-- code while a balance stays below 10²⁸ units. Times are whole seconds on ℕ, but microseconds in the
-- tokens and sessions of Auth, and the duration of a job whole milliseconds.
--
-- What the program takes from elsewhere is an argument: the digests, the case foldings, the texts
-- built from identifiers, the mail service, the rate limiter, the errors of the database driver,
-- the risk provider, the result of each attempt of a job, what its log and its commit raise, the classes
-- of its exceptions, the row object that a database session holds of a voice session, the signing of
-- tokens and the rounding of a numeric column. No property needs more of them than it states.
--
-- Only `digits` of `Decimals` runs on fuel: it counts up to 128 decimal digits, more than any
-- coefficient of the program has, since quantized amounts have at most 28. The retries of
-- `create` and the attempts of a job are counted down from the number that the code allows, and lists
-- are walked along their structure.
--
-- Not modelled are the web routes and their schemas, the metadata of audit rows, log output,
-- passwords, second factors and the rest of the account methods, mail, market data, the language
-- models and their tools, and the services of customers, projects, documents and outreach. The
-- summary of portfolios, the scheduler and the gateway of voice sessions are left for later.
pub mod Common
pub mod Ledger
pub mod Identity
pub mod Withdrawal
pub mod Accounting
pub mod Auth
pub mod Background
pub mod Decimals
pub mod Deposit
pub mod Risk
pub mod Trading
pub mod Voice
