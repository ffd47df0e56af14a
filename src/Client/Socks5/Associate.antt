-- ===== src/Client/Socks5/Associate.antt =====
-- `socks5_udp_associate` of the transport crate against the client's SOCKS5 server, and a dialer
-- with credentials, which the server does not support. The order in time is not modelled.
use zuicity.Prelude.{
  ℕ, ◌+◌, ◌≡◌, refl, ap, ◌∙◌, [], ◌∷◌, ◌++◌, append_assoc, Bool, true, false, ◌||◌, none, arith,
  length, length-append, take-append, get_or-append_right, Outcome, ok, err,
}
use zuicity.Prelude.Bytes.{Bytes, to_be_u16}
use zuicity.Session.{Wire, Session, ◌>>=◌, ◌>>◌, after, return}
use zuicity.Session.Laws.{before, read_exact-before}
use zuicity.Protocol.{IsPort}
use zuicity.Transport.{
  IpAddr, v4, v6, SocketAddr, IsIpAddr, OwnedProxyHeader, TransportError, socks5_proxy,
  method_selection, unexpected_response, udp_associate,
}
use zuicity.Transport.Tuic.Target.{Resolver}
use zuicity.Transport.Socks5
use zuicity.Transport.Socks5.{
  Socks5DialerLink, is_ipv4, is_some, socks5_negotiate_auth, socks5_connect, read_socks5_reply_addr,
  relay_address, unspecified_target, socks5_udp_associate, read_reply_ip,
}
use zuicity.Client.Defs.{ClientError, Socks5UdpClientEndpoint, unsupported_socks5_auth}
use zuicity.Client.Socks5.{
  read_socks5_greeting, read_socks5_request_header, read_network_port,
  validate_socks5_command_and_address_type, read_socks5_udp_client_endpoint,
  read_socks5_udp_associate_request, read_socks5_connect_target, write_socks5_success_response,
  success_response,
}
use zuicity.Client.Socks5.Handshake.{anonymous, socks5_negotiate_auth-anonymous}
use zuicity.Client.Socks5.Inbound.{written}

-- The server's part: the request, and the reply with the address of its UDP socket.
abbrev pub serve_udp : SocketAddr → Session ClientError Socks5UdpClientEndpoint
serve_udp bind_addr = do
  endpoint ← read_socks5_udp_associate_request
  write_socks5_success_response bind_addr
  return endpoint

abbrev associate_bytes : Bool → Bytes
associate_bytes want_ipv4 = 5 ∷ 1 ∷ 0 ∷ 5 ∷ 3 ∷ 0 ∷ (unspecified_target want_ipv4 ++ to_be_u16 0)

abbrev reply_bytes : SocketAddr → Bytes
reply_bytes bind_addr = 5 ∷ 0 ∷ success_response bind_addr

-- Any address and any port of the control connection's peer.
abbrev pub any_endpoint : Socks5UdpClientEndpoint
any_endpoint = record { ip = none; port = 0 }

read_request-wire :
    (want_ipv4 : Bool) (w : Wire)
    → read_socks5_udp_associate_request (before (associate_bytes want_ipv4) w)
      ≡ (ok any_endpoint, written w (5 ∷ 0 ∷ []))
unfolding read_socks5_udp_associate_request read_socks5_greeting read_socks5_request_header
    validate_socks5_command_and_address_type read_socks5_udp_client_endpoint read_network_port
read_request-wire true w = refl
read_request-wire false w = refl

serve_udp-wire :
    (want_ipv4 : Bool) (bind_addr : SocketAddr) (w : Wire)
    → serve_udp bind_addr (before (associate_bytes want_ipv4) w)
      ≡ (ok any_endpoint, written w (reply_bytes bind_addr))
unfolding write_socks5_success_response
serve_udp-wire want_ipv4 bind_addr w =
    ap (λ r. after r (λ e. write_socks5_success_response bind_addr >> return e))
      (read_request-wire want_ipv4 w)
    ∙ ap
        (λ (b : Bytes).
          let r : Outcome ClientError Socks5UdpClientEndpoint × Wire =
            (ok any_endpoint, record w { output = b }) in
          r)
        (append_assoc w.output (5 ∷ 0 ∷ []) (success_response bind_addr))

module _ (net : Resolver) where
  read_reply_ip-wire :
      (n : ℕ) (make : Bytes → IpAddr) (octets : Bytes) (port : ℕ) (w : Wire)
      → length octets ≡ n
      → IsPort port
      → read_reply_ip net n make (before (octets ++ to_be_u16 port) w)
        ≡ (ok (record { ip = make octets; port = port }), w)
  read_reply_ip-wire n make octets port w k p = ground (
    arith,
    read_exact-before Socks5.socks5_short (n + 2) (octets ++ to_be_u16 port) w,
    length-append octets (to_be_u16 port),
    take-append n octets (to_be_u16 port),
    get_or-append_right octets (to_be_u16 port) n 0 0,
    get_or-append_right octets (to_be_u16 port) (n + 1) 1 0,
  )

  read_socks5_reply_addr-wire :
      (a : IpAddr) (port : ℕ) (want_ipv4 : Bool) (w : Wire)
      → IsIpAddr a
      → IsPort port
      → let bind_addr : SocketAddr = record { ip = a; port = port } in
        read_socks5_reply_addr net udp_associate want_ipv4 (before (success_response bind_addr) w)
        ≡ (ok bind_addr, w)
  unfolding read_socks5_reply_addr
  read_socks5_reply_addr-wire (v4 octets) port want_ipv4 w v p =
      read_reply_ip-wire 4 v4 octets port w v.0 p
  read_socks5_reply_addr-wire (v6 octets) port want_ipv4 w v p =
      read_reply_ip-wire 16 v6 octets port w v.0 p

  socks5_udp_associate-wire :
      (proxy_target bind_addr : SocketAddr) (w : Wire)
      → IsIpAddr bind_addr.ip
      → IsPort bind_addr.port
      → socks5_udp_associate net anonymous proxy_target (before (reply_bytes bind_addr) w) ≡ (
        ok (relay_address proxy_target bind_addr),
        written w (associate_bytes (is_ipv4 proxy_target.ip)),
      )
  unfolding socks5_udp_associate
  socks5_udp_associate-wire proxy_target bind_addr w v p =
      let request = 5 ∷ 3 ∷ 0 ∷ (unspecified_target (is_ipv4 proxy_target.ip) ++ to_be_u16 0) in
      ap
        (λ r. after r (λ _. λ u.
          after
            (read_socks5_reply_addr net udp_associate (is_ipv4 proxy_target.ip) (written u request))
            (λ a. return (relay_address proxy_target a))))
        (socks5_negotiate_auth-anonymous (before (success_response bind_addr) w))
      ∙ ap (λ r. after r (λ a. return (relay_address proxy_target a)))
          (read_socks5_reply_addr-wire bind_addr.ip bind_addr.port (is_ipv4 proxy_target.ip)
            (written (written w (5 ∷ 1 ∷ 0 ∷ [])) request) v p)
      ∙ ap
          (λ (b : Bytes).
            let r : Outcome TransportError SocketAddr × Wire =
              (ok (relay_address proxy_target bind_addr), record w { output = b }) in
            r)
          (append_assoc w.output (5 ∷ 1 ∷ 0 ∷ []) request)

  -- The dialer without credentials asks for any UDP endpoint, which the server takes it to mean, and
  -- learns the address of the server's UDP socket, or the server's own where that is unspecified.
  pub socks5_udp_associate-serve_udp :
      (proxy_target bind_addr : SocketAddr) (dialer server : Wire)
      → IsIpAddr bind_addr.ip
      → IsPort bind_addr.port
      → (sent : Bytes) × (reply : Bytes) × (socks5_udp_associate net anonymous proxy_target
            (before reply dialer)
          ≡ (ok (relay_address proxy_target bind_addr), written dialer sent))
        × (serve_udp bind_addr (before sent server) ≡ (ok any_endpoint, written server reply))
  socks5_udp_associate-serve_udp proxy_target bind_addr dialer server v p = (
    associate_bytes (is_ipv4 proxy_target.ip),
    reply_bytes bind_addr,
    socks5_udp_associate-wire proxy_target bind_addr dialer v p,
    serve_udp-wire (is_ipv4 proxy_target.ip) bind_addr server,
  )

refused_connect :
    (h : OwnedProxyHeader) (link : Socks5DialerLink) (w : Wire)
    → (is_some link.username || is_some link.password) ≡ true
    → socks5_connect h link (before (5 ∷ 0xff ∷ []) w) ≡ (
      err (socks5_proxy method_selection (unexpected_response (5 ∷ 0xff ∷ []))),
      written w (5 ∷ 1 ∷ 2 ∷ []),
    )
unfolding socks5_connect socks5_negotiate_auth
refused_connect h link w c = rw c refl

-- A dialer with credentials offers only them, so the client's server refuses it and both sides end
-- with an error, before any target is sent.
pub socks5_connect-credentials :
    (valid_utf8 : Bytes → Bool) (h : OwnedProxyHeader) (link : Socks5DialerLink)
    (dialer server : Wire)
    → (is_some link.username || is_some link.password) ≡ true
    → (socks5_connect h link (before (5 ∷ 0xff ∷ []) dialer) ≡ (
      err (socks5_proxy method_selection (unexpected_response (5 ∷ 0xff ∷ []))),
      written dialer (5 ∷ 1 ∷ 2 ∷ []),
    ))
      × (read_socks5_connect_target valid_utf8 (before (5 ∷ 1 ∷ 2 ∷ []) server)
          ≡ (err unsupported_socks5_auth, written server (5 ∷ 0xff ∷ [])))
unfolding read_socks5_connect_target read_socks5_greeting
socks5_connect-credentials valid_utf8 h link dialer server c =
    (refused_connect h link dialer c, refl)
