-- ===== src/Transport/Trojan.antt =====
-- crates/zuicity-transport/src/lib.rs: the Trojan dialer's request header and its UDP packets. The
-- SHA-224 digest is an argument; a read of a payload returns the bytes that it puts into the buffer.
pub mod Packet
mod Tests
use zuicity.Prelude.{
  ℕ, ◌+◌, ◌/◌, ◌%◌, List, [], ◌∷◌, ◌++◌, Bool, not, ◌&&◌, ◌==◌, ltb, if◌then◌else◌, length, get_or,
  Outcome, ok, err, panic,
}
use zuicity.Prelude.Bytes.{Bytes, from_be_u16, to_be_u16}
use zuicity.Session.{Closing, Session, ◌>>=◌, ◌>>◌, return, fail, pure, read_exact, write_all}
use zuicity.Protocol.{Network, tcp, udp}
use zuicity.Transport.Defs.{
  IpAddr, v4, v6, SocketAddr, OwnedProxyAddress, ipv4, ipv6, domain, OwnedProxyHeader,
  TransportError, io, invalid_utf8, no_usable_udp_target, trojan_proxy, domain_exceeds_trojan,
  payload_exceeds_trojan, missing_crlf, exceeds_receive_buffer, unsupported_metadata_type,
}
use zuicity.Transport.Tuic.Target.{Resolver}

-- `?` on the error of a short read, an `std::io::Error`.
abbrev pub trojan_short : Closing → ℕ → TransportError
trojan_short _ _ = io

-- `b"\r\n"`
abbrev pub crlf : Bytes
crlf = 13 ∷ 10 ∷ []

-- An entry of `HEX`
abbrev pub hex_digit : ℕ → ℕ
hex_digit d = if ltb d 10 then 48 + d else 87 + d

abbrev pub hex_bytes : Bytes → Bytes
hex_bytes [] = []
hex_bytes (b ∷ digest) = hex_digit (b / 16) ∷ hex_digit (b % 16) ∷ hex_bytes digest

abbrev pub trojan_network_byte : Network → ℕ
trojan_network_byte tcp = 1
trojan_network_byte udp = 3

-- The buffer that the call leaves, with its outcome.
abbrev pub put_trojan_metadata :
    OwnedProxyAddress → ℕ → Bytes → Outcome TransportError (Unit {0}) × Bytes
put_trojan_metadata (ipv4 octets) port request =
    (ok tt, request ++ (1 ∷ (octets ++ to_be_u16 port)))
put_trojan_metadata (ipv6 octets) port request =
    (ok tt, request ++ (4 ∷ (octets ++ to_be_u16 port)))
put_trojan_metadata (domain name) port request =
    if ltb 255 (length name)
    then (err (trojan_proxy domain_exceeds_trojan), request)
    else (ok tt, request ++ (3 ∷ length name ∷ (name ++ to_be_u16 port)))

unfoldable pub encode_trojan_metadata :
    OwnedProxyHeader → Bytes → Outcome TransportError (Unit {0}) × Bytes
encode_trojan_metadata h request = put_trojan_metadata h.address h.port request

-- `encode_trojan_metadata(…)?`, more bytes behind it, and `write_all` of the buffer.
abbrev pub write_with :
    Bytes → Outcome TransportError (Unit {0}) × Bytes → Session TransportError (Unit {0})
write_with more (ok _, request) = write_all (request ++ more)
write_with more (err e, request) = fail e
write_with more (panic, request) = pure panic

module _ (sha224 : Bytes → Bytes) where
  unfoldable pub trojan_password_sha224_hex : Bytes → Bytes
  trojan_password_sha224_hex password = hex_bytes (sha224 password)

  unfoldable pub write_trojan_tcp_request_header :
      OwnedProxyHeader → Bytes → Session TransportError (Unit {0})
  write_trojan_tcp_request_header h password = write_with crlf (
      encode_trojan_metadata h
        (trojan_password_sha224_hex password ++ (crlf ++ trojan_network_byte h.network ∷ [])))

unfoldable pub write_trojan_udp_packet_frame :
    OwnedProxyHeader → Bytes → Session TransportError (Unit {0})
write_trojan_udp_packet_frame h payload =
    if ltb 65535 (length payload)
    then fail (trojan_proxy payload_exceeds_trojan)
    else write_with (to_be_u16 (length payload) ++ (crlf ++ payload)) (encode_trojan_metadata h [])

unfoldable pub read_trojan_udp_port : Session TransportError ℕ
read_trojan_udp_port = do
  port ← read_exact trojan_short 2
  return (from_be_u16 (get_or port 0 0) (get_or port 1 0))

abbrev pub read_trojan_ip : ℕ → (Bytes → IpAddr) → Session TransportError SocketAddr
read_trojan_ip n make = do
  raw ← read_exact trojan_short n
  port ← read_trojan_udp_port
  return (record { ip = make raw; port = port })

-- `.next().ok_or(NoUsableUdpTarget)`
abbrev pub first_found :
    Outcome TransportError (List SocketAddr) → Outcome TransportError SocketAddr
first_found (ok []) = err no_usable_udp_target
first_found (ok (a ∷ _)) = ok a
first_found (err e) = err e
first_found panic = panic

module _ (net : Resolver) where
  abbrev pub read_trojan_domain : Session TransportError SocketAddr
  read_trojan_domain = do
    len ← read_exact trojan_short 1
    name ← read_exact trojan_short (get_or len 0 0)
    if not (net.valid_utf8 name)
        then fail invalid_utf8
        else do port ← read_trojan_udp_port; pure (first_found (net.to_socket_addrs name port))

  abbrev pub read_trojan_address : ℕ → Session TransportError SocketAddr
  read_trojan_address address_type =
      if address_type == 1
      then read_trojan_ip 4 v4
      else if address_type == 3
      then read_trojan_domain
      else if address_type == 4
      then read_trojan_ip 16 v6
      else fail (trojan_proxy (unsupported_metadata_type address_type))

  unfoldable pub read_trojan_udp_metadata : Session TransportError SocketAddr
  read_trojan_udp_metadata = do
    address_type ← read_exact trojan_short 1
    read_trojan_address (get_or address_type 0 0)

  -- A packet after its metadata, for a buffer of `capacity` bytes.
  abbrev pub read_trojan_payload : ℕ → SocketAddr → Session TransportError (SocketAddr × Bytes)
  read_trojan_payload capacity peer = do
    payload_len ← read_exact trojan_short 2
    let n = from_be_u16 (get_or payload_len 0 0) (get_or payload_len 1 0)
    mark ← read_exact trojan_short 2
    if not (get_or mark 0 0 == 13 && get_or mark 1 0 == 10)
        then fail (trojan_proxy missing_crlf)
        else if ltb capacity n
        then fail (trojan_proxy exceeds_receive_buffer)
        else do payload ← read_exact trojan_short n; return (peer, payload)

  unfoldable pub read_trojan_udp_packet_frame : ℕ → Session TransportError (SocketAddr × Bytes)
  read_trojan_udp_packet_frame capacity = do
    peer ← read_trojan_udp_metadata
    read_trojan_payload capacity peer
