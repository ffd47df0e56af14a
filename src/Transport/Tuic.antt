-- ===== src/Transport/Tuic.antt =====
-- crates/zuicity-transport/src/lib.rs: TUIC v5 native UDP. `Target` has the address codec,
-- `Fragment` the packets on the wire, `Packet` the dialer's decoder, `Reassembly` the receiving side,
-- `EndToEnd` the way from the one to the other.
pub mod Connect
pub mod Target
pub mod Fragment
pub mod Packet
pub mod Reassembly
pub mod EndToEnd
