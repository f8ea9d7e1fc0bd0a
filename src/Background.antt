-- ===== src/Background.antt =====
-- Background jobs: the permission check of app/background/permissions.py and the runner of
-- app/background/runner.py.
pub mod Permissions
pub mod Grants
pub mod Runner
pub mod Attempts
mod Tests
