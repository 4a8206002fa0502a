-- ===== src/Kernel.antt =====
-- The kernel (src/nilscript/kernel): programs, their validation, and their execution.
pub mod Value
pub mod RunResult
pub mod Program
pub mod Graph
pub mod Acyclicity
pub mod References
pub mod Diagnostics
pub mod Context
pub mod Validator
pub mod Admission
pub mod Guards
pub mod Executor
pub mod Prerequisites
pub mod PrerequisiteSaga
mod Examples
mod PrerequisiteExamples
