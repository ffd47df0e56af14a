-- ===== src/Client/Socks5/Udp/Relay.antt =====
-- The two decoders of SOCKS5 datagrams, the client's and the dialer's, and each against the other's
-- encoder.
use zuicity.Prelude.{
  ℕ, ◌≤◌, ◌≡◌, ◌≢◌, refl, arith, length, drop, get_or, Outcome, ok, err, panic, ◌>>=◌,
}
use zuicity.Prelude.Bytes.{Bytes, slice_from}
use zuicity.Transport.{TransportError}
use zuicity.Transport.Tuic.Target.{Resolver}
use zuicity.Transport.Socks5.Udp.{
  Socks5UdpResponseAddress, Decoded, decode_response_ipv4, decode_response_ipv6,
  decode_response_domain, decode_response, decode_socks5_udp_response_header,
}
use zuicity.Client.Defs.{ClientError, invalid_socks5_request}
use zuicity.Client.Socks5.Udp.{
  Socks5UdpTarget, ip, domain, Socks5UdpDatagram, udp_target_ipv4, udp_target_ipv6,
  udp_target_domain, udp_target, decode_socks5_udp_datagram,
}

-- The client's names for what the dialer's decoder returns.
abbrev pub as_target : Socks5UdpResponseAddress → Socks5UdpTarget
as_target (Socks5UdpResponseAddress.ip a) = ip a
as_target (Socks5UdpResponseAddress.domain name port) = domain name port

abbrev as_client : Outcome TransportError Decoded → Outcome ClientError (Socks5UdpTarget × ℕ)
as_client (ok (a, n)) = ok (as_target a, n)
as_client (err _) = err invalid_socks5_request
as_client panic = panic

-- The client's datagram: the target, and the payload after the header.
abbrev pub as_datagram :
    Bytes → Outcome TransportError Decoded → Outcome ClientError Socks5UdpDatagram
as_datagram datagram (ok (a, n)) = ok (record { target = as_target a; payload = drop n datagram })
as_datagram datagram (err _) = err invalid_socks5_request
as_datagram datagram panic = panic

udp_target_ipv4-decode_response_ipv4 :
    (datagram : Bytes) → udp_target_ipv4 datagram ≡ as_client (decode_response_ipv4 datagram)
unfolding udp_target_ipv4 decode_response_ipv4
udp_target_ipv4-decode_response_ipv4 datagram = ground arith

udp_target_ipv6-decode_response_ipv6 :
    (datagram : Bytes) → udp_target_ipv6 datagram ≡ as_client (decode_response_ipv6 datagram)
unfolding udp_target_ipv6 decode_response_ipv6
udp_target_ipv6-decode_response_ipv6 datagram = ground arith

module _ (net : Resolver) where
  udp_target_domain-decode_response_domain :
      (datagram : Bytes)
      → udp_target_domain net.valid_utf8 datagram ≡ as_client (decode_response_domain net datagram)
  unfolding udp_target_domain decode_response_domain
  udp_target_domain-decode_response_domain datagram = ground arith

  udp_target-decode_response :
      (x : ℕ) (datagram : Bytes)
      → udp_target net.valid_utf8 x datagram ≡ as_client (decode_response net x datagram)
  unfolding udp_target decode_response
  udp_target-decode_response x datagram = ground (
    arith,
    udp_target_ipv4-decode_response_ipv4 datagram,
    udp_target_ipv6-decode_response_ipv6 datagram,
    udp_target_domain-decode_response_domain datagram,
  )

  Within : Bytes → Outcome TransportError Decoded → Type 0
  Within datagram (ok (a, n)) = n ≤ length datagram
  Within datagram (err _) = Unit
  Within datagram panic = ⊥

  decode_response_ipv4-Within : (datagram : Bytes) → Within datagram (decode_response_ipv4 datagram)
  unfolding Within decode_response_ipv4
  decode_response_ipv4-Within datagram = ground arith

  decode_response_ipv6-Within : (datagram : Bytes) → Within datagram (decode_response_ipv6 datagram)
  unfolding Within decode_response_ipv6
  decode_response_ipv6-Within datagram = ground arith

  decode_response_domain-Within :
      (datagram : Bytes) → Within datagram (decode_response_domain net datagram)
  unfolding Within decode_response_domain
  decode_response_domain-Within datagram = ground arith

  decode_response-Within :
      (x : ℕ) (datagram : Bytes) → Within datagram (decode_response net x datagram)
  unfolding Within decode_response
  decode_response-Within x datagram = ground (
    arith,
    decode_response_ipv4-Within datagram,
    decode_response_ipv6-Within datagram,
    decode_response_domain-Within datagram,
  )

  with_payload :
      (datagram : Bytes) (o : Outcome TransportError Decoded)
      → Within datagram o
      → (as_client o >>= λ (target, offset). slice_from datagram offset >>= λ payload.
          ok (record { target = target; payload = payload }))
        ≡ as_datagram datagram o
  unfolding Within slice_from
  with_payload datagram (ok (a, n)) k = ground (arith, k)
  with_payload datagram (err _) k = refl
  with_payload datagram panic k = absurd k

  -- The client's decoder and the dialer's accept the same datagrams, whatever the bytes, and find
  -- the same target and payload in them.
  pub decode_socks5_udp_datagram-decode_socks5_udp_response_header :
      (datagram : Bytes)
      → decode_socks5_udp_datagram net.valid_utf8 datagram
        ≡ as_datagram datagram (decode_socks5_udp_response_header net datagram)
  unfolding decode_socks5_udp_datagram decode_socks5_udp_response_header
  decode_socks5_udp_datagram-decode_socks5_udp_response_header datagram = ground (
    arith,
    udp_target-decode_response (get_or datagram 3 0) datagram,
    with_payload datagram (decode_response net (get_or datagram 3 0) datagram)
        (decode_response-Within (get_or datagram 3 0) datagram),
  )

  -- No datagram makes either decoder index or slice out of range.
  header-ne-panic : (datagram : Bytes) → decode_socks5_udp_response_header net datagram ≢ panic
  unfolding decode_socks5_udp_response_header Within
  header-ne-panic datagram = ground (arith, decode_response-Within (get_or datagram 3 0) datagram)
