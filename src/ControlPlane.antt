-- ===== src/ControlPlane.antt =====
-- The control plane's store (src/nilscript/controlplane/store.py): one module for each table.
pub mod Events
pub mod Approvals
pub mod Adapters
pub mod Automations
pub mod Runs
pub mod Decisions
pub mod Api
mod Examples
