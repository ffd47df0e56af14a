-- ===== src/Protocol.antt =====
-- crates/zuicity-protocol/src/lib.rs: the wire values, the addresses and headers, and the errors.
-- The codecs are in the children.
mod Defs
pub mod Metadata
pub mod Header
pub mod Datagram
pub mod Authentication
mod Tests
unfoldable pub use Defs.*
