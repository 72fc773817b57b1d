-- ===== src/Rules.antt =====
-- src/rules.rs: which rules match a signal.
pub mod Glob
pub mod Match
mod Examples
