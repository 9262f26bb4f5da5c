-- ===== src/Snmp.antt =====
-- The SNMP worker (apps/snmp/src): which notifications are let in, to whom they belong and what
-- becomes of them.
pub mod Keyring
pub mod Limits
pub mod Locks
pub mod Listeners
pub mod Credentials
pub mod Traps
pub mod Contracts
pub mod Sets
pub mod Service
pub mod Polls
pub mod Toy
mod Tests
