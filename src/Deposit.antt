-- ===== src/Deposit.antt =====
-- Recording a founder's manual deposit: app/services/deposit_accounting.py.
pub mod Service
pub mod Replay
pub mod Tests
