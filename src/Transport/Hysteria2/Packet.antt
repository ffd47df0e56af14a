-- ===== src/Transport/Hysteria2/Packet.antt =====
-- crates/zuicity-transport/src/lib.rs: `encode_hysteria2_udp_packet` and
-- `decode_hysteria2_udp_packet`. The UTF-8 test of the standard library is an argument, and a
-- `usize` has 64 bits, so that no varint exceeds it.
pub mod RoundTrip
use zuicity.Prelude.{
  ℕ, ◌+◌, ◌*◌, ◌/◌, ◌%◌, List, [], ◌∷◌, ◌++◌, Bool, not, ◌||◌, ◌==◌, ltb, leb, if◌then◌else◌,
  length, Outcome, ok, err, ◌>>=◌, ◌>>◌,
}
use zuicity.Prelude.Bytes.{Bytes, index, slice, slice_from, to_be_u16}
use zuicity.Transport.Hysteria2.{
  Hysteria2Error, truncated_header, session_id_mismatch, fragmented_not_implemented,
  invalid_address_length, invalid_payload_length, address_not_utf8, write_hysteria2_varint,
  read_hysteria2_datagram_varint,
}

abbrev pub hysteria2_max_udp_address_len : ℕ
hysteria2_max_udp_address_len = 2048

abbrev pub hysteria2_udp_packet_fixed_len : ℕ
hysteria2_udp_packet_fixed_len = 8

abbrev pub hysteria2_max_udp_size : ℕ
hysteria2_max_udp_size = 4096

-- `to_be_bytes` and `from_be_bytes` of a `u32`
abbrev pub to_be_u32 : ℕ → Bytes
to_be_u32 n = n / 256 / 256 / 256 % 256 ∷ n / 256 / 256 % 256 ∷ n / 256 % 256 ∷ n % 256 ∷ []

abbrev pub from_be_u32 : ℕ → ℕ → ℕ → ℕ → ℕ
from_be_u32 a b c d = ((a * 256 + b) * 256 + c) * 256 + d

-- The eight bytes before the address length.
abbrev pub fixed_part : ℕ → ℕ → ℕ → ℕ → Bytes
fixed_part session_id packet_id frag_id frag_count =
    to_be_u32 session_id ++ (to_be_u16 packet_id ++ (frag_id ∷ frag_count ∷ []))

-- Behind the address length, which the buffer holds.
finish_packet :
    Outcome Hysteria2Error (Unit {0}) × Bytes → Bytes → Bytes → Outcome Hysteria2Error Bytes
finish_packet (done, packet) addr payload =
    let whole = (packet ++ addr) ++ payload in
    done
    >> (if ltb hysteria2_max_udp_size (length whole)
        then err fragmented_not_implemented
        else ok whole)

unfoldable pub encode_hysteria2_udp_packet :
    (session_id packet_id frag_id frag_count : ℕ) → Bytes → Bytes → Outcome Hysteria2Error Bytes
unfolding finish_packet
encode_hysteria2_udp_packet session_id packet_id frag_id frag_count addr payload =
    if length addr == 0 || ltb hysteria2_max_udp_address_len (length addr)
    then err invalid_address_length
    else finish_packet
        (write_hysteria2_varint (length addr) (fixed_part session_id packet_id frag_id frag_count))
        addr payload

pub record Hysteria2UdpPacket : Type 0 where
  pub addr : Bytes
  pub payload : Bytes

module _ (valid_utf8 : Bytes → Bool) where
  -- Behind the address length and the offset behind it.
  unfoldable pub decode_address_and_payload :
      Bytes → ℕ × ℕ → Outcome Hysteria2Error Hysteria2UdpPacket
  unfolding slice slice_from
  decode_address_and_payload datagram (address_len, offset) =
      if address_len == 0 || ltb hysteria2_max_udp_address_len address_len
      then err invalid_address_length
      else if leb (length datagram) (offset + address_len)
      then err invalid_payload_length
      else do
        addr ← slice datagram offset (offset + address_len)
        if not (valid_utf8 addr) then err address_not_utf8 else do
          payload ← slice_from datagram (offset + address_len)
          ok (record { addr = addr; payload = payload })

  unfoldable pub decode_hysteria2_udp_packet : Bytes → ℕ → Outcome Hysteria2Error Hysteria2UdpPacket
  unfolding index
  decode_hysteria2_udp_packet datagram expected_session_id =
      if ltb (length datagram) hysteria2_udp_packet_fixed_len then err truncated_header else do
        a ← index datagram 0
        b ← index datagram 1
        c ← index datagram 2
        d ← index datagram 3
        if not (from_be_u32 a b c d == expected_session_id) then err session_id_mismatch else do
          packet_hi ← index datagram 4
          packet_lo ← index datagram 5
          frag_id ← index datagram 6
          frag_count ← index datagram 7
          if not (frag_id == 0) || not (frag_count == 1) then err fragmented_not_implemented else do
            address ← read_hysteria2_datagram_varint datagram hysteria2_udp_packet_fixed_len
            decode_address_and_payload datagram address
