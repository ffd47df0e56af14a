-- ===== src/Client/Socks5/Udp/RoundTrip.antt =====
-- A SOCKS5 datagram of one crate under the decoder of the other.
use zuicity.Prelude.{
  ℕ, suc, ◌+◌, ◌≤◌, ◌≡◌, refl, ap, ◌∙◌, [], ◌∷◌, ◌++◌, append_assoc, Bool, true, arith, length,
  drop, length-append, take-append, drop-append, get_or-append_right, Outcome, ok,
}
use zuicity.Prelude.Bytes.{Bytes, to_be_u16}
use zuicity.Protocol.{IsPort, udp}
use zuicity.Transport.{
  IpAddr, v4, v6, SocketAddr, IsIpAddr, OwnedProxyAddress, ipv4, ipv6, OwnedProxyHeader,
}
use zuicity.Transport.Tuic.Target.{Resolver}
use zuicity.Transport.Socks5.{encode_socks5_target}
use zuicity.Transport.Socks5.Udp.{
  Socks5UdpResponseAddress, ip, domain, Decoded, decode_response_ipv4, decode_response_ipv6,
  decode_response_domain, decode_response, decode_socks5_udp_response_header,
}
use zuicity.Transport.Socks5.Udp as Dialer
use zuicity.Client.Defs.{ClientError}
use zuicity.Client.Socks5.Inbound.{IsTarget, kind_of, target_body}
use zuicity.Client.Socks5.Udp.{
  Socks5UdpDatagram, decode_socks5_udp_datagram, encode_socks5_udp_datagram,
}
use zuicity.Client.Socks5.Udp.Relay.{
  as_target, as_datagram, decode_socks5_udp_datagram-decode_socks5_udp_response_header,
}

abbrev pub address_of : OwnedProxyAddress → ℕ → Socks5UdpResponseAddress
address_of (ipv4 octets) port = ip (record { ip = v4 octets; port = port })
address_of (ipv6 octets) port = ip (record { ip = v6 octets; port = port })
address_of (OwnedProxyAddress.domain name) port = domain name port

abbrev pub datagram_of : OwnedProxyAddress → ℕ → Bytes → Bytes
datagram_of a port payload = 0 ∷ 0 ∷ 0 ∷ kind_of a ∷ (target_body a port ++ payload)

abbrev header_len : OwnedProxyAddress → ℕ
header_len (ipv4 octets) = 10
header_len (ipv6 octets) = 22
header_len (OwnedProxyAddress.domain name) = suc (suc (suc (suc (suc (suc (suc (length name)))))))

decode_response_ipv4-wire :
    (octets : Bytes) (port : ℕ) (payload : Bytes)
    → length octets ≡ 4
    → IsPort port
    → decode_response_ipv4 (0 ∷ 0 ∷ 0 ∷ 1 ∷ (octets ++ (to_be_u16 port ++ payload)))
      ≡ ok (address_of (ipv4 octets) port, 10)
unfolding decode_response_ipv4
decode_response_ipv4-wire (a ∷ b ∷ c ∷ d ∷ []) port payload n p = ground arith
decode_response_ipv4-wire [] port payload n p = absurd (omega arith)
decode_response_ipv4-wire (a ∷ []) port payload n p = absurd (omega arith)
decode_response_ipv4-wire (a ∷ b ∷ []) port payload n p = absurd (omega arith)
decode_response_ipv4-wire (a ∷ b ∷ c ∷ []) port payload n p = absurd (omega arith)
decode_response_ipv4-wire (a ∷ b ∷ c ∷ d ∷ e ∷ r) port payload n p = absurd (omega arith)

decode_response_ipv6-wire :
    (octets : Bytes) (port : ℕ) (payload : Bytes)
    → length octets ≡ 16
    → IsPort port
    → decode_response_ipv6 (0 ∷ 0 ∷ 0 ∷ 4 ∷ (octets ++ (to_be_u16 port ++ payload)))
      ≡ ok (address_of (ipv6 octets) port, 22)
unfolding decode_response_ipv6
decode_response_ipv6-wire octets port payload n p = ground (
  arith,
  length-append octets (to_be_u16 port ++ payload),
  take-append 16 octets (to_be_u16 port ++ payload),
  get_or-append_right octets (to_be_u16 port ++ payload) 16 0 0,
  get_or-append_right octets (to_be_u16 port ++ payload) 17 1 0,
)

decode_response_domain-wire :
    (net : Resolver) (name : Bytes) (port : ℕ) (payload : Bytes)
    → 1 ≤ length name
    → net.valid_utf8 name ≡ true
    → IsPort port
    → decode_response_domain net
        (0 ∷ 0 ∷ 0 ∷ 3 ∷ length name ∷ (name ++ (to_be_u16 port ++ payload)))
      ≡ ok (address_of (OwnedProxyAddress.domain name) port, 7 + length name)
unfolding decode_response_domain
decode_response_domain-wire net name port payload n u p = ground (
  arith,
  length-append name (to_be_u16 port ++ payload),
  take-append (length name) name (to_be_u16 port ++ payload),
  get_or-append_right name (to_be_u16 port ++ payload) (length name) 0 0,
  get_or-append_right name (to_be_u16 port ++ payload) (1 + length name) 1 0,
)

pub decode_response_header-wire :
    (net : Resolver) (a : OwnedProxyAddress) (port : ℕ) (payload : Bytes)
    → IsTarget net.valid_utf8 a
    → IsPort port
    → decode_socks5_udp_response_header net (datagram_of a port payload)
      ≡ ok (address_of a port, header_len a)
unfolding decode_socks5_udp_response_header decode_response
decode_response_header-wire net (ipv4 octets) port payload k p = ground (
  arith,
  append_assoc octets (to_be_u16 port) payload,
  decode_response_ipv4-wire octets port payload k p,
)
decode_response_header-wire net (ipv6 octets) port payload k p = ground (
  arith,
  append_assoc octets (to_be_u16 port) payload,
  decode_response_ipv6-wire octets port payload k p,
)
decode_response_header-wire net (OwnedProxyAddress.domain name) port payload k p = ground (
  arith,
  append_assoc name (to_be_u16 port) payload,
  decode_response_domain-wire net name port payload k.0 k.2 p,
)

drop-datagram_of :
    (valid_utf8 : Bytes → Bool) (a : OwnedProxyAddress) (port : ℕ) (payload : Bytes)
    → IsTarget valid_utf8 a
    → drop (header_len a) (datagram_of a port payload) ≡ payload
drop-datagram_of v (ipv4 octets) port payload k =
    drop-append 6 (octets ++ to_be_u16 port) payload
      (omega (arith, k, length-append octets (to_be_u16 port)))
drop-datagram_of v (ipv6 octets) port payload k =
    drop-append 18 (octets ++ to_be_u16 port) payload
      (omega (arith, k, length-append octets (to_be_u16 port)))
drop-datagram_of v (OwnedProxyAddress.domain name) port payload k =
    drop-append (suc (suc (length name))) (name ++ to_be_u16 port) payload
      (omega (arith, length-append name (to_be_u16 port)))

encode_dialer_datagram :
    (valid_utf8 : Bytes → Bool) (h : OwnedProxyHeader) (a : OwnedProxyAddress) (payload : Bytes)
    → h.network ≡ udp
    → h.address ≡ a
    → IsTarget valid_utf8 a
    → Dialer.encode_socks5_udp_datagram h payload ≡ ok (datagram_of a h.port payload)
unfolding Dialer.encode_socks5_udp_datagram encode_socks5_target
encode_dialer_datagram v h (ipv4 octets) payload u q k = ground (arith, u, q)
encode_dialer_datagram v h (ipv6 octets) payload u q k = ground (arith, u, q)
encode_dialer_datagram v h (OwnedProxyAddress.domain name) payload u q k = ground (arith, u, q, k)

server_datagram :
    (net : Resolver) (a : IpAddr) (port : ℕ) (payload : Bytes)
    → IsIpAddr a
    → IsPort port
    → let peer : SocketAddr = record { ip = a; port = port } in
      (datagram : Bytes) × (n : ℕ) × (encode_socks5_udp_datagram peer payload ≡ ok datagram)
      × (decode_socks5_udp_response_header net datagram ≡ ok (ip peer, n))
      × (drop n datagram ≡ payload)
unfolding encode_socks5_udp_datagram
server_datagram net (v4 octets) port payload v p = (
  datagram_of (ipv4 octets) port payload,
  10,
  refl,
  decode_response_header-wire net (ipv4 octets) port payload v.0 p,
  drop-datagram_of net.valid_utf8 (ipv4 octets) port payload v.0,
)
server_datagram net (v6 octets) port payload v p = (
  datagram_of (ipv6 octets) port payload,
  22,
  refl,
  decode_response_header-wire net (ipv6 octets) port payload v.0 p,
  drop-datagram_of net.valid_utf8 (ipv6 octets) port payload v.0,
)

-- The dialer's datagram for a UDP header whose target is an IP address, or a domain of 1 to 255 bytes
-- that is UTF-8, is decoded by the client's server to that target and payload.
pub decode-encode_dialer_datagram :
    (net : Resolver) (h : OwnedProxyHeader) (payload : Bytes)
    → h.network ≡ udp
    → IsTarget net.valid_utf8 h.address
    → IsPort h.port
    → (datagram : Bytes) × (Dialer.encode_socks5_udp_datagram h payload ≡ ok datagram)
      × (decode_socks5_udp_datagram net.valid_utf8 datagram
          ≡ ok (record { target = as_target (address_of h.address h.port); payload = payload }))
decode-encode_dialer_datagram net h payload u k p = (
  datagram_of h.address h.port payload,
  encode_dialer_datagram net.valid_utf8 h h.address payload u refl k,
  decode_socks5_udp_datagram-decode_socks5_udp_response_header net
        (datagram_of h.address h.port payload)
      ∙ ap (as_datagram (datagram_of h.address h.port payload))
          (decode_response_header-wire net h.address h.port payload k p)
      ∙ ap
          (λ (b : Bytes).
            let o : Outcome ClientError Socks5UdpDatagram =
              ok (record { target = as_target (address_of h.address h.port); payload = b }) in
            o)
          (drop-datagram_of net.valid_utf8 h.address h.port payload k),
)

-- The server's datagram from a peer is decoded by the dialer to that peer's address, and what
-- follows the header is the payload.
pub decode-encode_server_datagram :
    (net : Resolver) (peer : SocketAddr) (payload : Bytes)
    → IsIpAddr peer.ip
    → IsPort peer.port
    → (datagram : Bytes) × (n : ℕ) × (encode_socks5_udp_datagram peer payload ≡ ok datagram)
      × (decode_socks5_udp_response_header net datagram ≡ ok (ip peer, n))
      × (drop n datagram ≡ payload)
decode-encode_server_datagram net peer payload v p =
    server_datagram net peer.ip peer.port payload v p
