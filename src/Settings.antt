-- ===== src/Settings.antt =====
-- The settings of the API (apps/api/src/settings).
pub mod RoleRequests
pub mod AccessGroups
