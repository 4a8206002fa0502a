-- ===== src/DataPlane.antt =====
-- The data plane (src/nilscript/dataplane).
pub mod Bulk
pub mod Export
mod Examples
