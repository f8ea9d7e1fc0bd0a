-- ===== src/Ledger.antt =====
-- The double-entry ledger of app/services/ledger.py: its tables, the methods of `LedgerService`,
-- and what they keep.
pub mod Tables
pub mod Service
pub mod Movements
pub mod Sums
pub mod ReversalTotals
pub mod Conservation
pub mod Idempotency
pub mod Balances
pub mod Transfer
pub mod Reversal
pub mod Undo
pub mod Tests
