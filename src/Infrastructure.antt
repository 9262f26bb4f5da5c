-- ===== src/Infrastructure.antt =====
-- apps/api/src/infrastructure: who may see and change sites, buildings, rooms and what stands in
-- them.
pub mod Store
pub mod Access
pub mod Bulk
pub mod Entities
mod Tests
