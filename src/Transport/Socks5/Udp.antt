-- ===== src/Transport/Socks5/Udp.antt =====
-- crates/zuicity-transport/src/lib.rs: the datagrams of the SOCKS5 dialer,
-- `encode_socks5_udp_datagram`, `decode_socks5_udp_response_header` and
-- `resolve_socks5_udp_response_address`.
use zuicity.Prelude.{
  ℕ, ◌+◌, [], ◌∷◌, ◌++◌, Bool, ◌||◌, not, ◌==◌, ltb, if◌then◌else◌, length, get_or, Outcome, ok,
  err, panic, ◌>>=◌,
}
use zuicity.Prelude.Bytes.{Bytes, index, slice, from_be_u16}
use zuicity.Protocol.{Network, tcp, udp}
use zuicity.Transport.Defs.{
  v4, v6, SocketAddr, OwnedProxyHeader, TransportError, invalid_utf8, unexpected_proxy_network,
  socks5_proxy, udp_relay, Socks5Message, invalid_udp_header, truncated_ipv4_header,
  truncated_ipv6_header, truncated_domain_header, unsupported_relay_address_type,
}
use zuicity.Transport.Tuic.Target.{Resolver}
use zuicity.Transport.Socks5.{encode_socks5_target, resolve_socks5_domain_address}

pub data Socks5UdpResponseAddress : Type 0 where
  ip : SocketAddr → Socks5UdpResponseAddress
  domain : Bytes → ℕ → Socks5UdpResponseAddress

abbrev then_payload :
    Bytes → Outcome TransportError (Unit {0}) × Bytes → Outcome TransportError Bytes
then_payload payload (ok _, datagram) = ok (datagram ++ payload)
then_payload payload (err e, _) = err e
then_payload payload (panic, _) = panic

abbrev encode_for : Network → OwnedProxyHeader → Bytes → Outcome TransportError Bytes
encode_for tcp h payload = err (unexpected_proxy_network tcp)
encode_for udp h payload = then_payload payload (encode_socks5_target h (0 ∷ 0 ∷ 0 ∷ []))

unfoldable pub encode_socks5_udp_datagram : OwnedProxyHeader → Bytes → Outcome TransportError Bytes
encode_socks5_udp_datagram h payload = encode_for h.network h payload

abbrev relay_error {ℓ} : {A : Type ℓ} → Socks5Message → Outcome TransportError A
relay_error message = err (socks5_proxy udp_relay message)

-- An address with the length of the header.
abbrev pub Decoded : Type 0
Decoded = Socks5UdpResponseAddress × ℕ

unfoldable pub decode_response_ipv4 : Bytes → Outcome TransportError Decoded
unfolding index
decode_response_ipv4 datagram =
    if ltb (length datagram) 10 then relay_error truncated_ipv4_header else do
      a ← index datagram 4
      b ← index datagram 5
      c ← index datagram 6
      d ← index datagram 7
      hi ← index datagram 8
      lo ← index datagram 9
      ok (ip (record { ip = v4 (a ∷ b ∷ c ∷ d ∷ []); port = from_be_u16 hi lo }), 10)

unfoldable pub decode_response_ipv6 : Bytes → Outcome TransportError Decoded
unfolding index slice
decode_response_ipv6 datagram =
    if ltb (length datagram) 22 then relay_error truncated_ipv6_header else do
      addr ← slice datagram 4 20
      hi ← index datagram 20
      lo ← index datagram 21
      ok (ip (record { ip = v6 addr; port = from_be_u16 hi lo }), 22)

abbrev pub bad_start : Bytes → Bool
bad_start datagram =
    ltb (length datagram) 4
    || (not (get_or datagram 0 0 == 0)
        || (not (get_or datagram 1 0 == 0) || not (get_or datagram 2 0 == 0)))

module _ (net : Resolver) where
  unfoldable pub decode_response_domain : Bytes → Outcome TransportError Decoded
  unfolding index slice
  decode_response_domain datagram =
      if ltb (length datagram) 5 then relay_error truncated_domain_header else do
        len ← index datagram 4
        if len == 0 || ltb (length datagram) (5 + len + 2)
            then relay_error truncated_domain_header
            else do
              name ← slice datagram 5 (5 + len)
              if not (net.valid_utf8 name) then err invalid_utf8 else do
                hi ← index datagram (5 + len)
                lo ← index datagram (6 + len)
                ok (domain name (from_be_u16 hi lo), 7 + len)

  unfoldable pub decode_response : ℕ → Bytes → Outcome TransportError Decoded
  decode_response kind datagram =
      if kind == 1
      then decode_response_ipv4 datagram
      else if kind == 4
      then decode_response_ipv6 datagram
      else if kind == 3
      then decode_response_domain datagram
      else relay_error (unsupported_relay_address_type kind)

  unfoldable pub decode_socks5_udp_response_header : Bytes → Outcome TransportError Decoded
  unfolding index
  decode_socks5_udp_response_header datagram =
      if bad_start datagram
      then relay_error invalid_udp_header
      else do kind ← index datagram 3; decode_response kind datagram

  unfoldable pub resolve_socks5_udp_response_address :
      Socks5UdpResponseAddress → Bool → Outcome TransportError SocketAddr
  resolve_socks5_udp_response_address (ip address) want_ipv4 = ok address
  resolve_socks5_udp_response_address (domain name port) want_ipv4 =
      resolve_socks5_domain_address net name port want_ipv4
