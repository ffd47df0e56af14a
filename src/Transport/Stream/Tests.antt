-- ===== src/Transport/Stream/Tests.antt =====
-- The stream readers on concrete bytes.
use zuicity.Prelude.{◌≡◌, ◌≢◌, refl, [], ◌∷◌, Bool, true, arith, ok, panic}
use zuicity.Prelude.Bytes.{Bytes, AreBytes, index, slice, slice_from}
use zuicity.Session.{Wire, finished}
use zuicity.Session.Laws.{before}
use zuicity.Protocol.{tcp, udp, ProxyAddress, ProxyHeader, network_try_from, require_len}
use zuicity.Protocol.Metadata.{decode_runtime_metadata, decode_domain, decode_ipv4}
use zuicity.Protocol.Header.{decode}
use zuicity.Protocol.Datagram.{decode_udp_datagram}
use zuicity.Protocol.Header.Codec.{IsHeader}
use zuicity.Transport.Defs.{v4, SocketAddr, OwnedProxyHeader, domain}
use zuicity.Transport.Stream.{
  read_proxy_header_prefix, read_udp_datagram_frame, write_proxy_header,
  write_udp_over_stream_response, from_ip, from_borrowed,
}
use zuicity.Transport.Stream.Header.{
  owned_prefix, read_proxy_header_prefix-decode, read-write_proxy_header,
  read_proxy_header_prefix-eq-ok,
}
use zuicity.Transport.Stream.NoPanic.{read_proxy_header_prefix-ne-panic}
use zuicity.Transport.Stream.Datagram.{read-write_udp_over_stream_response}

abbrev all_utf8 : Bytes → Bool
all_utf8 _ = true

-- `a.io`, port 443, and two bytes after it
abbrev site : ProxyHeader
site = record {
  network = tcp;
  address = ProxyAddress.domain (97 ∷ 46 ∷ 105 ∷ 111 ∷ []);
  port = 443;
}

abbrev owned_site : OwnedProxyHeader
owned_site = record { network = tcp; address = domain (97 ∷ 46 ∷ 105 ∷ 111 ∷ []); port = 443 }

abbrev stream : Bytes → Wire
stream bytes = record { input = bytes; closing = finished; output = [] }

abbrev site_bytes : Bytes
site_bytes = 1 ∷ 3 ∷ 4 ∷ 97 ∷ 46 ∷ 105 ∷ 111 ∷ 1 ∷ 187 ∷ 8 ∷ 9 ∷ []

site-AreBytes : AreBytes site_bytes
site-AreBytes = (
  omega arith,
  (
    omega arith,
    (
      omega arith,
      (
        omega arith,
        (
          omega arith,
          (
            omega arith,
            (omega arith, (omega arith, (omega arith, (omega arith, (omega arith, tt))))),
          ),
        ),
      ),
    ),
  ),
)

site-IsHeader : IsHeader site
site-IsHeader = record {
  address = (omega arith, (omega arith, (omega arith, (omega arith, tt))));
  port = omega arith;
}

site_decoded : decode site_bytes ≡ ok (site, 8 ∷ 9 ∷ [])
unfolding decode network_try_from decode_runtime_metadata decode_domain index slice slice_from
    require_len
site_decoded = refl

read_proxy_header_prefix-decode_example :
    read_proxy_header_prefix all_utf8 (stream site_bytes)
    ≡ owned_prefix all_utf8 site (stream (8 ∷ 9 ∷ []))
read_proxy_header_prefix-decode_example =
    read_proxy_header_prefix-decode all_utf8 (stream site_bytes) site (8 ∷ 9 ∷ []) site-AreBytes
      site_decoded

site_read :
    read_proxy_header_prefix all_utf8 (stream site_bytes)
    ≡ (ok (owned_site, []), stream (8 ∷ 9 ∷ []))
site_read =
    read_proxy_header_prefix-decode all_utf8 (stream site_bytes) site (8 ∷ 9 ∷ []) site-AreBytes
      site_decoded

read_proxy_header_prefix-eq-ok_example :
    (h : ProxyHeader) × (decode site_bytes ≡ ok (h, 8 ∷ 9 ∷ []))
    × (from_borrowed all_utf8 h ≡ ok owned_site)
read_proxy_header_prefix-eq-ok_example =
    read_proxy_header_prefix-eq-ok all_utf8 (stream site_bytes) (stream (8 ∷ 9 ∷ [])) owned_site []
      site-AreBytes site_read

read_proxy_header_prefix-ne-panic_example :
    (read_proxy_header_prefix all_utf8 (stream site_bytes)).0 ≢ panic
read_proxy_header_prefix-ne-panic_example =
    read_proxy_header_prefix-ne-panic all_utf8 (stream site_bytes) site-AreBytes

read-write_proxy_header_example :
    (wire : Bytes) × (write_proxy_header owned_site (stream [])
      ≡ (ok tt, record (stream []) { output = wire }))
    × (read_proxy_header_prefix all_utf8 (before wire (stream (8 ∷ [])))
        ≡ (ok (owned_site, []), stream (8 ∷ [])))
read-write_proxy_header_example =
    read-write_proxy_header all_utf8 owned_site (stream []) (stream (8 ∷ [])) site-IsHeader
      (omega arith) refl

abbrev frame_bytes : Bytes
frame_bytes = 1 ∷ 10 ∷ 0 ∷ 0 ∷ 1 ∷ 0 ∷ 53 ∷ 0 ∷ 2 ∷ 7 ∷ 8 ∷ 9 ∷ []

frame-AreBytes : AreBytes frame_bytes
frame-AreBytes = (
  omega arith,
  (
    omega arith,
    (
      omega arith,
      (
        omega arith,
        (
          omega arith,
          (
            omega arith,
            (
              omega arith,
              (omega arith, (omega arith, (omega arith, (omega arith, (omega arith, tt))))),
            ),
          ),
        ),
      ),
    ),
  ),
)

abbrev resolver_header : ProxyHeader
resolver_header = record {
  network = udp;
  address = ProxyAddress.ipv4 (10 ∷ 0 ∷ 0 ∷ 1 ∷ []);
  port = 53;
}

frame_decoded : decode_udp_datagram frame_bytes ≡ ok (resolver_header, 7 ∷ 8 ∷ [], 9 ∷ [])
unfolding decode_udp_datagram decode_runtime_metadata decode_ipv4 index slice slice_from require_len
frame_decoded = refl

abbrev peer : SocketAddr
peer = record { ip = v4 (10 ∷ 0 ∷ 0 ∷ 1 ∷ []); port = 53 }

read-write_udp_over_stream_response_example :
    (wire : Bytes) × (write_udp_over_stream_response peer (7 ∷ 8 ∷ []) (stream [])
      ≡ (ok tt, record (stream []) { output = wire }))
    × (read_udp_datagram_frame all_utf8 (before wire (stream (9 ∷ []))) ≡ (
      ok (record { header = from_ip udp peer.ip peer.port; payload = 7 ∷ 8 ∷ [] }),
      stream (9 ∷ []),
    ))
read-write_udp_over_stream_response_example =
    read-write_udp_over_stream_response all_utf8 peer (7 ∷ 8 ∷ []) (stream []) (stream (9 ∷ []))
      (refl, (omega arith, (omega arith, (omega arith, (omega arith, tt))))) (omega arith)
      (omega arith)
