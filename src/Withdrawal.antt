-- ===== src/Withdrawal.antt =====
-- Withdrawals: `WithdrawalService` of app/services/operations.py, over the ledger and the identity
-- tables. The children hold its tables, its methods, and what they keep.
pub mod Tables
pub mod Service
pub mod Transitions
pub mod Once
pub mod Workspaces
pub mod Create
pub mod Creation
pub mod Circuit
pub mod Release
pub mod Retry
pub mod Replay
pub mod Books
pub mod Runs
mod Tests
