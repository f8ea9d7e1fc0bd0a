-- ===== src/Voice.antt =====
-- Voice sessions: the state machine of app/voice/state.py and the store of app/voice/session.py.
pub mod States
pub mod Sessions
pub mod Claims
pub mod Steps
pub mod Runs
mod Tests
