-- ===== src/Client/Socks5/Udp.antt =====
-- crates/zuicity-client/src/lib.rs: `decode_socks5_udp_datagram` and `encode_socks5_udp_datagram`.
pub mod Relay
pub mod RoundTrip
use zuicity.Prelude.{
  ℕ, ◌+◌, [], ◌∷◌, ◌++◌, Bool, ◌||◌, not, ◌==◌, ltb, leb, if◌then◌else◌, length, get_or, Outcome,
  ok, err, ◌>>=◌,
}
use zuicity.Prelude.Bytes.{Bytes, index, slice, slice_from, from_be_u16, to_be_u16}
use zuicity.Transport.{IpAddr, v4, v6, SocketAddr}
use zuicity.Client.Defs.{ClientError, invalid_socks5_request}

pub data Socks5UdpTarget : Type 0 where
  ip : SocketAddr → Socks5UdpTarget
  domain : Bytes → ℕ → Socks5UdpTarget

pub record Socks5UdpDatagram : Type 0 where
  pub target : Socks5UdpTarget
  pub payload : Bytes

-- The first four bytes are there, and the reserved ones and the fragment number are 0.
abbrev pub bad_request_start : Bytes → Bool
bad_request_start datagram =
    ltb (length datagram) 4
    || (not (get_or datagram 0 0 == 0)
        || (not (get_or datagram 1 0 == 0) || not (get_or datagram 2 0 == 0)))

-- A target with the offset after it.
unfoldable pub udp_target_ipv4 : Bytes → Outcome ClientError (Socks5UdpTarget × ℕ)
unfolding index
udp_target_ipv4 datagram =
    if ltb (length datagram) (4 + 4 + 2) then err invalid_socks5_request else do
      a ← index datagram 4
      b ← index datagram 5
      c ← index datagram 6
      d ← index datagram 7
      hi ← index datagram 8
      lo ← index datagram 9
      ok (ip (record { ip = v4 (a ∷ b ∷ c ∷ d ∷ []); port = from_be_u16 hi lo }), 10)

unfoldable pub udp_target_ipv6 : Bytes → Outcome ClientError (Socks5UdpTarget × ℕ)
unfolding index slice
udp_target_ipv6 datagram =
    if ltb (length datagram) (4 + 16 + 2) then err invalid_socks5_request else do
      address ← slice datagram 4 20
      hi ← index datagram 20
      lo ← index datagram 21
      ok (ip (record { ip = v6 address; port = from_be_u16 hi lo }), 22)

module _ (valid_utf8 : Bytes → Bool) where
  unfoldable pub udp_target_domain : Bytes → Outcome ClientError (Socks5UdpTarget × ℕ)
  unfolding index slice
  udp_target_domain datagram = if leb (length datagram) 4 then err invalid_socks5_request else do
    len ← index datagram 4
    if len == 0 || ltb (length datagram) (5 + len + 2) then err invalid_socks5_request else do
      name ← slice datagram 5 (5 + len)
      if not (valid_utf8 name) then err invalid_socks5_request else do
        hi ← index datagram (5 + len)
        lo ← index datagram (5 + len + 1)
        ok (domain name (from_be_u16 hi lo), 5 + len + 2)

  unfoldable pub udp_target : ℕ → Bytes → Outcome ClientError (Socks5UdpTarget × ℕ)
  udp_target address_type datagram =
      if address_type == 1
      then udp_target_ipv4 datagram
      else if address_type == 3
      then udp_target_domain datagram
      else if address_type == 4
      then udp_target_ipv6 datagram
      else err invalid_socks5_request

  unfoldable pub decode_socks5_udp_datagram : Bytes → Outcome ClientError Socks5UdpDatagram
  unfolding index slice_from
  decode_socks5_udp_datagram datagram =
      if bad_request_start datagram then err invalid_socks5_request else do
        address_type ← index datagram 3
        (target, offset) ← udp_target address_type datagram
        payload ← slice_from datagram offset
        ok (record { target = target; payload = payload })

abbrev pub header_bytes : IpAddr → ℕ → Bytes
header_bytes (v4 octets) port = 0 ∷ 0 ∷ 0 ∷ 1 ∷ (octets ++ to_be_u16 port)
header_bytes (v6 octets) port = 0 ∷ 0 ∷ 0 ∷ 4 ∷ (octets ++ to_be_u16 port)

unfoldable pub encode_socks5_udp_datagram : SocketAddr → Bytes → Outcome ClientError Bytes
encode_socks5_udp_datagram target payload = ok (header_bytes target.ip target.port ++ payload)
