-- ===== src/Server.antt =====
-- crates/zuicity-server/src/lib.rs: the admission of connections before they are authenticated.
pub mod Admission
mod Tests
