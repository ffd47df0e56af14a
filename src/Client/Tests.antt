-- ===== src/Client/Tests.antt =====
-- The SOCKS5 server of the client and the SOCKS5 dialer on concrete requests.
use zuicity.Prelude.{◌≡◌, refl, [], ◌∷◌, Bool, true, some, arith, Outcome, ok, err}
use zuicity.Prelude.Bytes.{Bytes}
use zuicity.Session.{Wire, finished}
use zuicity.Session.Laws.{before}
use zuicity.Protocol.{tcp, udp}
use zuicity.Transport.{
  v4, SocketAddr, domain, OwnedProxyHeader, socks5_proxy, method_selection, unexpected_response,
  IsIpAddr,
}
use zuicity.Transport.Tuic.Target.{Resolver}
use zuicity.Transport.Socks5.{Socks5DialerLink, socks5_connect, socks5_udp_associate, relay_address}
use zuicity.Transport.Socks5.Udp.{Socks5UdpResponseAddress, decode_socks5_udp_response_header}
use zuicity.Transport.Socks5.Udp as Dialer
use zuicity.Client.Defs.{ClientError, TcpForwardTarget, unsupported_socks5_auth}
use zuicity.Client.Socks5.{read_socks5_connect_target, handle_socks5_connect, matches}
use zuicity.Client.Socks5.Handshake.{anonymous, socks5_connect-handle_socks5_connect}
use zuicity.Client.Socks5.Inbound.{target_of, written}
use zuicity.Client.Socks5.Associate.{
  serve_udp, any_endpoint, socks5_udp_associate-serve_udp, socks5_connect-credentials,
}
use zuicity.Client.Socks5.Udp.{decode_socks5_udp_datagram}
use zuicity.Client.Socks5.Udp.Relay.{
  as_target, as_datagram, decode_socks5_udp_datagram-decode_socks5_udp_response_header,
}
use zuicity.Client.Socks5.Udp.RoundTrip.{address_of, decode-encode_dialer_datagram}

abbrev all_utf8 : Bytes → Bool
all_utf8 _ = true

abbrev bound : SocketAddr
bound = record { ip = v4 (127 ∷ 0 ∷ 0 ∷ 1 ∷ []); port = 1080 }

bound-IsIpAddr : IsIpAddr bound.ip
bound-IsIpAddr = (refl, (omega arith, (omega arith, (omega arith, (omega arith, tt)))))

-- `a.io`, port 443
abbrev site : OwnedProxyHeader
site = record { network = tcp; address = domain (97 ∷ 46 ∷ 105 ∷ 111 ∷ []); port = 443 }

abbrev udp_site : OwnedProxyHeader
udp_site = record { network = udp; address = domain (97 ∷ 46 ∷ 105 ∷ 111 ∷ []); port = 443 }

abbrev stream : Bytes → Wire
stream bytes = record { input = bytes; closing = finished; output = [] }

abbrev net : Resolver
net = record { valid_utf8 = all_utf8; to_socket_addrs = λ _ _. ok (bound ∷ []) }

-- The stream to every target opens.
abbrev opens : TcpForwardTarget → Outcome ClientError (Unit {0})
opens _ = ok tt

socks5_connect-handle_socks5_connect_example :
    (sent : Bytes) × (reply : Bytes) × (socks5_connect site anonymous
        (before reply (stream (7 ∷ [])))
      ≡ (ok tt, written (stream (7 ∷ [])) sent))
    × (handle_socks5_connect all_utf8 opens (before sent (stream (8 ∷ [])))
        ≡ (ok (target_of site.address site.port), written (stream (8 ∷ [])) reply))
socks5_connect-handle_socks5_connect_example =
    socks5_connect-handle_socks5_connect all_utf8 opens site (stream (7 ∷ [])) (stream (8 ∷ []))
      (omega arith, omega arith, refl) (omega arith) refl

socks5_udp_associate-serve_udp_example :
    (sent : Bytes) × (reply : Bytes) × (socks5_udp_associate net anonymous bound
        (before reply (stream []))
      ≡ (ok (relay_address bound bound), written (stream []) sent))
    × (serve_udp bound (before sent (stream [])) ≡ (ok any_endpoint, written (stream []) reply))
socks5_udp_associate-serve_udp_example =
    socks5_udp_associate-serve_udp net bound bound (stream []) (stream []) bound-IsIpAddr
      (omega arith)

-- The endpoint of that request matches every port of the control connection's address, and no
-- other address.
endpoint_matches : (matches any_endpoint bound.ip bound) ≡ true
unfolding matches
endpoint_matches = refl

abbrev named_link : Socks5DialerLink
named_link = record { username = some (117 ∷ []); password = some (112 ∷ []) }

socks5_connect-credentials_example :
    (socks5_connect site named_link (before (5 ∷ 0xff ∷ []) (stream [])) ≡ (
      err (socks5_proxy method_selection (unexpected_response (5 ∷ 0xff ∷ []))),
      written (stream []) (5 ∷ 1 ∷ 2 ∷ []),
    ))
    × (read_socks5_connect_target all_utf8 (before (5 ∷ 1 ∷ 2 ∷ []) (stream []))
        ≡ (err unsupported_socks5_auth, written (stream []) (5 ∷ 0xff ∷ [])))
socks5_connect-credentials_example =
    socks5_connect-credentials all_utf8 site named_link (stream []) (stream []) refl

abbrev datagram : Bytes
datagram = 0 ∷ 0 ∷ 0 ∷ 3 ∷ 1 ∷ 97 ∷ 0 ∷ 53 ∷ 7 ∷ []

decode_socks5_udp_datagram-decode_socks5_udp_response_header_example :
    decode_socks5_udp_datagram all_utf8 datagram
    ≡ as_datagram datagram (decode_socks5_udp_response_header net datagram)
decode_socks5_udp_datagram-decode_socks5_udp_response_header_example =
    decode_socks5_udp_datagram-decode_socks5_udp_response_header net datagram

decode-encode_dialer_datagram_example :
    (d : Bytes) × (Dialer.encode_socks5_udp_datagram udp_site (7 ∷ []) ≡ ok d)
    × (decode_socks5_udp_datagram all_utf8 d
        ≡ ok (record { target = as_target (address_of udp_site.address 443); payload = 7 ∷ [] }))
decode-encode_dialer_datagram_example =
    decode-encode_dialer_datagram net udp_site (7 ∷ []) refl (omega arith, omega arith, refl)
      (omega arith)
