-- ===== src/Risk.antt =====
-- The risk boundary of app/services/risk_contract.py: snapshots, limits and the engine.
pub mod Tables
pub mod Engine
pub mod Builder
pub mod Soundness
pub mod Sizing
pub mod Tests
