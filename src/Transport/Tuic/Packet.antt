-- ===== src/Transport/Tuic/Packet.antt =====
-- crates/zuicity-transport/src/lib.rs: `decode_tuic_udp_packet`, the decoder of the dialer, which
-- takes packets of one fragment only.
pub mod Agreement
use zuicity.Prelude.{
  ℕ, ◌+◌, Bool, not, ◌||◌, ◌==◌, ltb, if◌then◌else◌, length, Outcome, ok, err, ◌>>=◌,
}
use zuicity.Prelude.Bytes.{Bytes, index, slice, from_be_u16}
use zuicity.Transport.Defs.{
  SocketAddr, TransportError, truncated_packet_header, unexpected_packet_head,
  association_id_mismatch, fragmented_not_implemented, payload_length_mismatch,
}
use zuicity.Transport.Tuic.Target.{Resolver, packet_error, decode_tuic_udp_target}
use zuicity.Transport.Tuic.Fragment.{tuic_version_5, tuic_command_packet, tuic_udp_packet_fixed_len}

-- The fields outside tests.
pub record TuicUdpPacket : Type 0 where
  pub target : SocketAddr
  pub payload : Bytes

-- Behind the target: it, the offset and the payload length.
unfoldable pub packet_payload : Bytes → ℕ → SocketAddr × ℕ → Outcome TransportError TuicUdpPacket
unfolding slice
packet_payload raw payload_len (target, payload_offset) =
    let end = payload_offset + payload_len in
    if not (length raw == end) then packet_error payload_length_mismatch else do
      payload ← slice raw payload_offset end
      ok (record { target = target; payload = payload })

unfoldable pub decode_tuic_udp_packet : Resolver → Bytes → ℕ → Outcome TransportError TuicUdpPacket
unfolding index
decode_tuic_udp_packet net raw expected_association_id =
    if ltb (length raw) tuic_udp_packet_fixed_len then packet_error truncated_packet_header else do
      version ← index raw 0
      command ← index raw 1
      if not (version == tuic_version_5) || not (command == tuic_command_packet)
          then packet_error unexpected_packet_head
          else do
            association_hi ← index raw 2
            association_lo ← index raw 3
            if not (from_be_u16 association_hi association_lo == expected_association_id)
                then packet_error association_id_mismatch
                else do
                  fragment_total ← index raw 6
                  fragment_id ← index raw 7
                  if not (fragment_total == 1) || not (fragment_id == 0)
                      then packet_error fragmented_not_implemented
                      else do
                        len_hi ← index raw 8
                        len_lo ← index raw 9
                        target ← decode_tuic_udp_target net raw tuic_udp_packet_fixed_len
                        packet_payload raw (from_be_u16 len_hi len_lo) target
