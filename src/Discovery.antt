-- ===== src/Discovery.antt =====
-- apps/api/src/discovery: which addresses and ports may be probed.
pub mod Comparison
pub mod Profiles
pub mod Addresses
pub mod Networks
pub mod Policy
pub mod Hosts
mod Tests
