-- ===== src/Collections.antt =====
-- The `Set` and `Map` of the source, and what the modules prove of them.
pub mod Ascending
pub mod Texts
