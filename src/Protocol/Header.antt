-- ===== src/Protocol/Header.antt =====
-- crates/zuicity-protocol/src/lib.rs: `ProxyHeader::encode_to`, `encode_target_to`, `decode`.
pub mod Codec
use zuicity.Prelude.{ℕ, ◌+◌, [], ◌∷◌, ◌++◌, Outcome, ok, ◌>>=◌, ◌>>◌}
use zuicity.Prelude.Bytes.{Bytes, index, slice_from}
use zuicity.Protocol.Defs.{ProtocolError, ProxyHeader, network_as_u8, network_try_from, require_len}
use zuicity.Protocol.Metadata.{Written, encode_runtime_metadata, decode_runtime_metadata}

unfoldable pub encode_to : ProxyHeader → Bytes → Written
unfolding network_as_u8
encode_to h dst = encode_runtime_metadata h.address h.port (dst ++ network_as_u8 h.network ∷ [])

unfoldable pub encode_target_to : ProxyHeader → Bytes → Written
encode_target_to h dst = encode_runtime_metadata h.address h.port dst

unfoldable pub decode : Bytes → Outcome ProtocolError (ProxyHeader × Bytes)
unfolding require_len index slice_from network_try_from
decode input = do
  require_len input 2
  value ← index input 0
  network ← network_try_from value
  metadata ← slice_from input 1
  (address, port, consumed) ← decode_runtime_metadata metadata
  rest ← slice_from input (1 + consumed)
  ok (record { network = network; address = address; port = port }, rest)
