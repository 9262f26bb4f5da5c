-- ===== src/Operations.antt =====
-- apps/api/src/operations: the alerts that operators handle.
pub mod Alerts
pub mod Policies
mod Tests
