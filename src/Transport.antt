-- ===== src/Transport.antt =====
-- crates/zuicity-transport/src: the values shared by its parts, and the parts as children.
mod Defs
pub mod Tuic
pub mod UdpBatch
pub mod DialerLink
pub mod Hysteria2
pub mod Stream
pub mod Socks5
pub mod Relay
pub mod Vmess
pub mod Vless
pub mod Trojan
mod Tests
pub use Defs.*
