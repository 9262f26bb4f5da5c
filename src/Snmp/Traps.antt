-- ===== src/Snmp/Traps.antt =====
-- The trap receiver of traps.ts, from a notification to its stored event.
pub mod Store
pub mod Notifications
pub mod Association
pub mod Events
pub mod Steps
mod Tests
