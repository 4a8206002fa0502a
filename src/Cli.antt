-- ===== src/Cli.antt =====
-- The command line's repair of refusals and its unwind (src/nilscript/cli).
pub mod Repair
mod Examples
