-- ===== src/Kernel/Admission.antt =====
-- What `validate` of src/nilscript/kernel/validator.py promises of a program that it admits.
pub mod Passes
pub mod Targets
pub mod Verbs
pub mod Sources
pub mod Reach
