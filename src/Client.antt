-- ===== src/Client.antt =====
-- crates/zuicity-client/src: the values of its SOCKS5 server, and its parts as children.
mod Defs
pub mod Socks5
mod Tests
pub use Defs.*
