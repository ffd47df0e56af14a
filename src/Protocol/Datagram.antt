-- ===== src/Protocol/Datagram.antt =====
-- crates/zuicity-protocol/src/lib.rs: `encode_udp_datagram` and `decode_udp_datagram`.
pub mod Codec
use zuicity.Prelude.{
  ℕ, ◌+◌, [], ◌∷◌, ◌++◌, ltb, if◌then◌else◌, length, Outcome, ok, err, panic, ◌>>=◌, ◌>>◌,
}
use zuicity.Prelude.Bytes.{Bytes, index, slice, slice_from, from_be_u16, to_be_u16}
use zuicity.Protocol.Defs.{
  ProtocolError, udp_payload_too_long, udp, ProxyHeader, require_len, udp_payload_length_len,
}
use zuicity.Protocol.Metadata.{Written, decode_runtime_metadata}
use zuicity.Protocol.Header.{encode_target_to}

-- `dst.put_u16(payload_len as u16); dst.put_slice(payload)` after a target that was written.
put_payload : Bytes → Written → Written
put_payload payload (ok _, dst) = (ok tt, dst ++ (to_be_u16 (length payload) ++ payload))
put_payload payload (err e, dst) = (err e, dst)
put_payload payload (panic, dst) = (panic, dst)

unfoldable pub encode_udp_datagram : ProxyHeader → Bytes → Bytes → Written
unfolding put_payload
encode_udp_datagram h payload dst =
    if ltb 65535 (length payload)
    then (err (udp_payload_too_long (length payload)), dst)
    else put_payload payload (encode_target_to h dst)

unfoldable pub decode_udp_datagram : Bytes → Outcome ProtocolError (ProxyHeader × Bytes × Bytes)
unfolding require_len index slice slice_from
decode_udp_datagram input = do
  (address, port, consumed) ← decode_runtime_metadata input
  rest ← slice_from input consumed
  require_len rest udp_payload_length_len
  hi ← index rest 0
  lo ← index rest 1
  let frame_len = udp_payload_length_len + from_be_u16 hi lo
  require_len rest frame_len
  payload ← slice rest udp_payload_length_len frame_len
  after ← slice_from rest frame_len
  ok (record { network = udp; address = address; port = port }, payload, after)
