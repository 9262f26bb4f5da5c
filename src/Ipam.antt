-- ===== src/Ipam.antt =====
-- apps/api/src/ipam: who may see and change IPAM data, and the address arithmetic of subnets.
pub mod Access
pub mod Hosts
pub mod SubnetPlacement
pub mod Listing
pub mod Rights
pub mod Decisions
pub mod Planning
mod Tests
