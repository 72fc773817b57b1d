-- ===== src/Tools.antt =====
-- src/tools_api.rs: reading and checking sections.
pub mod Reader
pub mod Command
pub mod Input
pub mod Locate
pub mod Rewrite
pub mod Validate
mod Examples
