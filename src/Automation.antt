-- ===== src/Automation.antt =====
-- Automations (src/nilscript/automation): firing, triggers, and the scheduler.
pub mod Dispatch
pub mod Triggers
mod Examples
pub mod Scheduler
pub mod Skeleton
pub mod Authoring
pub mod Compose
pub mod Composed
