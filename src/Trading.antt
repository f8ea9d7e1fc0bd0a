-- ===== src/Trading.antt =====
-- `QTradeExecutionService` of app/services/trading_contracts.py: its data, its method, and
-- what becomes of a proposal.
pub mod Tables
pub mod Service
pub mod Safety
pub mod DryRun
pub mod Replay
mod Tests
