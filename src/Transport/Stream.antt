-- ===== src/Transport/Stream.antt =====
-- crates/zuicity-transport/src/lib.rs: the frames that the server reads from a QUIC stream and
-- writes to it, `read_runtime_target_metadata`, `read_proxy_header_prefix`,
-- `read_udp_datagram_frame`, `write_proxy_header`, `write_udp_over_stream_response`, and the
-- conversions of `OwnedProxyHeader`. A build with debug assertions is modelled: one that fails
-- panics.

pub mod Metadata
pub mod Header
pub mod NoPanic
pub mod Datagram
mod Tests
use zuicity.Prelude.{
  ℕ, zero, suc, ◌+◌, List, [], ◌∷◌, ◌++◌, Bool, ◌==◌, if◌then◌else◌, length, get_or, Outcome, ok,
  err, panic,
}
use zuicity.Prelude.Bytes.{Bytes, from_be_u16}
use zuicity.Session.{
  Closing, finished, lost, Wire, Session, ◌>>=◌, ◌>>◌, return, fail, pure, read_exact, write_all,
}
use zuicity.Protocol.{
  ProtocolError, unknown_runtime_addr_type, runtime_addr_type_ipv4, runtime_addr_type_ipv6,
  runtime_addr_type_domain, Network, udp, ProxyAddress, ProxyHeader,
}
use zuicity.Protocol.Metadata.{Written}
use zuicity.Protocol.Header.{encode_to, decode}
use zuicity.Protocol.Datagram.{encode_udp_datagram, decode_udp_datagram}
use zuicity.Transport.Defs.{
  IpAddr, v4, v6, SocketAddr, OwnedProxyAddress, ipv4, ipv6, domain, OwnedProxyHeader,
  TransportError, protocol, invalid_utf8, proxy_stream_closed_before_header, read_exact_failed,
  finished_early, read_error,
}

-- `?` on the protocol's errors
abbrev pub from_protocol {ℓ} : {A : Type ℓ} → Outcome ProtocolError A → Outcome TransportError A
from_protocol (ok a) = ok a
from_protocol (err e) = err (protocol e)
from_protocol panic = panic

-- `?` on `quinn::ReadExactError`
abbrev pub quic_short : Closing → ℕ → TransportError
quic_short finished n = read_exact_failed (finished_early n)
quic_short lost n = read_exact_failed read_error

-- The first byte of a frame: `FinishedEarly(0)` is a stream that was closed before the header.
abbrev pub first_short : Closing → ℕ → TransportError
first_short finished zero = proxy_stream_closed_before_header
first_short c n = quic_short c n

-- `OwnedProxyHeader::from_ip`
abbrev pub from_ip : Network → IpAddr → ℕ → OwnedProxyHeader
from_ip network (v4 octets) port = record { network = network; address = ipv4 octets; port = port }
from_ip network (v6 octets) port = record { network = network; address = ipv6 octets; port = port }

-- `proxy_header_for_ip`
abbrev pub proxy_header_for_ip : Network → IpAddr → ℕ → ProxyHeader
proxy_header_for_ip network (v4 octets) port = record {
  network = network;
  address = ProxyAddress.ipv4 octets;
  port = port;
}
proxy_header_for_ip network (v6 octets) port = record {
  network = network;
  address = ProxyAddress.ipv6 octets;
  port = port;
}

abbrev pub borrowed_address : OwnedProxyAddress → ProxyAddress
borrowed_address (ipv4 octets) = ProxyAddress.ipv4 octets
borrowed_address (ipv6 octets) = ProxyAddress.ipv6 octets
borrowed_address (domain name) = ProxyAddress.domain name

-- `OwnedProxyHeader::as_borrowed`
abbrev pub as_borrowed : OwnedProxyHeader → ProxyHeader
as_borrowed h = record { network = h.network; address = borrowed_address h.address; port = h.port }

-- The buffer `encoded` is given, and returned with the bytes that were read.
abbrev pub read_metadata_rest : Bytes → ℕ → Session TransportError Bytes
read_metadata_rest encoded n = do rest ← read_exact quic_short n; return (encoded ++ rest)

abbrev pub read_metadata_domain : Bytes → Session TransportError Bytes
read_metadata_domain encoded = do
  len ← read_exact quic_short 1
  read_metadata_rest (encoded ++ len) (get_or len 0 0 + 2)

abbrev pub read_metadata_after : Bytes → ℕ → Session TransportError Bytes
read_metadata_after encoded addr_type =
    if addr_type == runtime_addr_type_ipv4
    then read_metadata_rest encoded 6
    else if addr_type == runtime_addr_type_ipv6
    then read_metadata_rest encoded 18
    else if addr_type == runtime_addr_type_domain
    then read_metadata_domain encoded
    else fail (protocol (unknown_runtime_addr_type addr_type))

unfoldable pub read_runtime_target_metadata : Bytes → Session TransportError Bytes
read_runtime_target_metadata encoded = do
  addr_type ← read_exact quic_short 1
  read_metadata_after (encoded ++ addr_type) (get_or addr_type 0 0)

-- `debug_assert!(rest.is_empty())`
abbrev pub assert_empty : Bytes → Outcome TransportError (Unit {0})
assert_empty [] = ok tt
assert_empty (_ ∷ _) = panic

-- `send.write_all(&encoded)` of a buffer that was encoded.
abbrev pub write_encoded : Written → Session TransportError (Unit {0})
write_encoded (ok _, encoded) = write_all encoded
write_encoded (err e, encoded) = fail (protocol e)
write_encoded (panic, encoded) = pure panic

unfoldable pub write_proxy_header : OwnedProxyHeader → Session TransportError (Unit {0})
write_proxy_header h = write_encoded (encode_to (as_borrowed h) [])

unfoldable pub write_udp_over_stream_response :
    SocketAddr → Bytes → Session TransportError (Unit {0})
write_udp_over_stream_response peer response =
    write_encoded (encode_udp_datagram (proxy_header_for_ip udp peer.ip peer.port) response [])

pub record UdpFrame : Type 0 where
  pub header : OwnedProxyHeader
  pub payload : Bytes

-- `valid_utf8`: `str::from_utf8` of the standard library accepts the bytes.
module _ (valid_utf8 : Bytes → Bool) where
  abbrev pub owned_address : ProxyAddress → Outcome TransportError OwnedProxyAddress
  owned_address (ProxyAddress.ipv4 octets) = ok (ipv4 octets)
  owned_address (ProxyAddress.ipv6 octets) = ok (ipv6 octets)
  owned_address (ProxyAddress.domain name) =
      if valid_utf8 name then ok (domain name) else err invalid_utf8

  -- `OwnedProxyHeader::from_borrowed`
  abbrev pub from_borrowed : ProxyHeader → Outcome TransportError OwnedProxyHeader
  from_borrowed h = elim (owned_address h.address) [
    | ok address ↦ ok (record { network = h.network; address = address; port = h.port })
    | err e ↦ err e
    | panic ↦ panic
  ]

  unfoldable pub read_proxy_header_prefix : Session TransportError (OwnedProxyHeader × Bytes)
  read_proxy_header_prefix = do
    network ← read_exact first_short 1
    encoded ← read_runtime_target_metadata network
    (header, rest) ← pure (from_protocol (decode encoded))
    pure (assert_empty rest)
    owned_header ← pure (from_borrowed header)
    return (owned_header, [])

  unfoldable pub read_udp_datagram_frame : Session TransportError UdpFrame
  read_udp_datagram_frame = do
    encoded ← read_runtime_target_metadata []
    length ← read_exact quic_short 2
    payload ← read_exact quic_short (from_be_u16 (get_or length 0 0) (get_or length 1 0))
    (header, payload, rest) ←
        pure (from_protocol (decode_udp_datagram (encoded ++ (length ++ payload))))
    pure (assert_empty rest)
    header ← pure (from_borrowed header)
    return (record { header = header; payload = payload })
