-- ===== src/Protocol/Metadata.antt =====
-- crates/zuicity-protocol/src/lib.rs: `encode_runtime_metadata` and `decode_runtime_metadata`.
-- An encoder is given the buffer `dst` and returns its outcome with the buffer it leaves.
pub mod RoundTrip
pub mod Canonical
use zuicity.Prelude.{
  ℕ, ◌+◌, List, [], ◌∷◌, ◌++◌, ◌==◌, ltb, if◌then◌else◌, length, Outcome, ok, err, ◌>>=◌, ◌>>◌,
}
use zuicity.Prelude.Bytes.{Bytes, index, slice, from_be_u16, to_be_u16}
use zuicity.Protocol.Defs.{
  ProtocolError, domain_too_long, unknown_runtime_addr_type, ProxyAddress, ipv4, ipv6, domain,
  runtime_addr_type_ipv4, runtime_addr_type_ipv6, runtime_addr_type_domain, require_len,
}

abbrev pub Written : Type 0
Written = Outcome ProtocolError (Unit {0}) × Bytes

unfoldable pub encode_runtime_metadata : ProxyAddress → ℕ → Bytes → Written
encode_runtime_metadata (ipv4 octets) port dst =
    (ok tt, dst ++ (runtime_addr_type_ipv4 ∷ (octets ++ to_be_u16 port)))
encode_runtime_metadata (ipv6 octets) port dst =
    (ok tt, dst ++ (runtime_addr_type_ipv6 ∷ (octets ++ to_be_u16 port)))
encode_runtime_metadata (domain name) port dst =
    if ltb 255 (length name)
    then (err (domain_too_long (length name)), dst)
    else (ok tt, dst ++ (runtime_addr_type_domain ∷ length name ∷ (name ++ to_be_u16 port)))

-- An address, a port and the number of bytes consumed.
abbrev pub Metadata : Type 0
Metadata = ProxyAddress × ℕ × ℕ

unfoldable pub decode_ipv4 : Bytes → Outcome ProtocolError Metadata
unfolding require_len index
decode_ipv4 input = do
  let consumed = 1 + 4 + 2
  require_len input consumed
  a ← index input 1
  b ← index input 2
  c ← index input 3
  d ← index input 4
  hi ← index input 5
  lo ← index input 6
  ok (ipv4 (a ∷ b ∷ c ∷ d ∷ []), from_be_u16 hi lo, consumed)

unfoldable pub decode_ipv6 : Bytes → Outcome ProtocolError Metadata
unfolding require_len index slice
decode_ipv6 input = do
  let consumed = 1 + 16 + 2
  require_len input consumed
  octets ← slice input 1 17
  hi ← index input 17
  lo ← index input 18
  ok (ipv6 octets, from_be_u16 hi lo, consumed)

unfoldable pub decode_domain : Bytes → Outcome ProtocolError Metadata
unfolding require_len index slice
decode_domain input = do
  require_len input 2
  domain_len ← index input 1
  let consumed = 1 + 1 + domain_len + 2
  require_len input consumed
  let domain_end = 2 + domain_len
  hi ← index input domain_end
  lo ← index input (domain_end + 1)
  name ← slice input 2 domain_end
  ok (domain name, from_be_u16 hi lo, consumed)

unfoldable pub decode_runtime_metadata : Bytes → Outcome ProtocolError Metadata
unfolding require_len index
decode_runtime_metadata input = do
  require_len input 1
  addr_type ← index input 0
  if addr_type == runtime_addr_type_ipv4
      then decode_ipv4 input
      else if addr_type == runtime_addr_type_ipv6
      then decode_ipv6 input
      else if addr_type == runtime_addr_type_domain
      then decode_domain input
      else err (unknown_runtime_addr_type addr_type)
