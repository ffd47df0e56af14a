-- ===== src/Config.antt =====
-- crates/zuicity-config/src/lib.rs: the parts of the configuration that are parsed and printed by
-- its own code.
pub mod Userinfo
pub mod Fwmark
mod Tests
