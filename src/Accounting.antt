-- ===== src/Accounting.antt =====
-- Recording and reversing settled trades: app/services/trade_accounting.py, with the assets of
-- app/services/assets.py and the decimal arithmetic that both stand on.
pub mod Decimals
pub mod Tables
pub mod Service
pub mod Record
pub mod Reverse
pub mod Amounts
pub mod Positions
pub mod Outcomes
pub mod Books
pub mod Soundness
pub mod Invariant
pub mod Growth
pub mod Legs
pub mod Parties
pub mod RoundTrip
pub mod Tests
