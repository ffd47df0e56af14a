-- ===== src/Transport/Stream/Datagram.antt =====
-- The stream reader of a UDP frame against the decoder of the protocol crate.
use zuicity.Prelude.{
  ℕ, ◌≤◌, ◌≡◌, refl, sym, ap, ◌∙◌, [], ◌++◌, append-nil, append_assoc, Bool, arith, length, get_or,
  Outcome, ok,
}
use zuicity.Prelude.Bytes.{Bytes, AreBytes, to_be_u16, from_be_u16}
use zuicity.Session.{Wire, Session, after, return, read_exact}
use zuicity.Session.Laws.{before, read_exact-before}
use zuicity.Protocol.{Network, udp, ProxyHeader, IsPort}
use zuicity.Protocol.Metadata.RoundTrip.{Fits, metadata_wire}
use zuicity.Protocol.Header.Codec.{IsHeader}
use zuicity.Protocol.Datagram.{decode_udp_datagram}
use zuicity.Protocol.Datagram.Codec.{
  payload_wire, datagram_wire, encode_udp_datagram-wire, decode_udp_datagram-wire,
  decode_udp_datagram-parts,
}
use zuicity.Transport.Defs.{IpAddr, v4, v6, SocketAddr, TransportError, IsIpAddr}
use zuicity.Transport.Stream.{
  from_protocol, quic_short, assert_empty, from_borrowed, from_ip, proxy_header_for_ip, UdpFrame,
  read_udp_datagram_frame, write_udp_over_stream_response,
}
use zuicity.Transport.Stream.Metadata.{read_runtime_target_metadata-wire}

-- What the reader makes of a frame that it decoded.
abbrev pub owned_frame :
    (Bytes → Bool) → ProxyHeader → Bytes → Wire → Outcome TransportError UdpFrame × Wire
owned_frame valid_utf8 h payload w =
    after (from_borrowed valid_utf8 h, w)
      (λ owned. return (record { header = owned; payload = payload }))

abbrev finish_frame :
    (Bytes → Bool)
    → Outcome TransportError (ProxyHeader × Bytes × Bytes) × Wire
    → Outcome TransportError UdpFrame × Wire
finish_frame valid_utf8 r = after r (λ (header, payload, rest).
    λ w. after (assert_empty rest, w) (λ _. λ w. owned_frame valid_utf8 header payload w))

-- The rest of the reader, after the metadata.
abbrev payload_part : (Bytes → Bool) → Bytes → Session TransportError UdpFrame
payload_part valid_utf8 encoded w = after (read_exact quic_short 2 w) (λ length. λ w.
    after (read_exact quic_short (from_be_u16 (get_or length 0 0) (get_or length 1 0)) w)
      (λ payload. λ w.
        finish_frame valid_utf8
          (from_protocol (decode_udp_datagram (encoded ++ (length ++ payload))), w)))

from_be_u16-to_be_u16 :
    (n : ℕ) → n ≤ 65535 → from_be_u16 (get_or (to_be_u16 n) 0 0) (get_or (to_be_u16 n) 1 0) ≡ n
from_be_u16-to_be_u16 n h = omega arith

payload_part-wire :
    (valid_utf8 : Bytes → Bool) (h : ProxyHeader) (payload : Bytes) (w : Wire)
    → IsHeader h
    → h.network ≡ udp
    → length payload ≤ 65535
    → payload_part valid_utf8 (metadata_wire h.address h.port) (before (payload_wire payload) w)
      ≡ owned_frame valid_utf8 h payload w
payload_part-wire valid_utf8 h payload w v u k =
    ap
      (λ r. after r (λ p. λ w. finish_frame valid_utf8 (
        from_protocol (
            decode_udp_datagram
              (metadata_wire h.address h.port ++ (to_be_u16 (length payload) ++ p))),
        w,
      )))
      (read_exact-before quic_short _ payload w (sym (from_be_u16-to_be_u16 (length payload) k)))
    ∙ ap (λ o. finish_frame valid_utf8 (from_protocol o, w))
        (ap (λ (b : Bytes). decode_udp_datagram (metadata_wire h.address h.port ++ b))
            (sym (append-nil (payload_wire payload)))
          ∙ decode_udp_datagram-wire h payload [] v u k)

read_udp_datagram_frame-wire :
    (valid_utf8 : Bytes → Bool) (h : ProxyHeader) (payload : Bytes) (w : Wire)
    → IsHeader h
    → h.network ≡ udp
    → length payload ≤ 65535
    → read_udp_datagram_frame valid_utf8 (before (datagram_wire h payload) w)
      ≡ owned_frame valid_utf8 h payload w
unfolding read_udp_datagram_frame
read_udp_datagram_frame-wire valid_utf8 h payload w v u k =
    ap (λ (b : Bytes). read_udp_datagram_frame valid_utf8 (record w { input = b }))
      (append_assoc (metadata_wire h.address h.port) (payload_wire payload) w.input)
    ∙ ap (λ r. after r (payload_part valid_utf8))
        (read_runtime_target_metadata-wire [] h.address h.port (before (payload_wire payload) w)
          v.address)
    ∙ payload_part-wire valid_utf8 h payload w v u k

-- Where the protocol's decoder accepts what the stream holds, the stream reader returns the same
-- header and payload, or refuses the domain as `from_borrowed` does, and leaves the same rest.
pub read_udp_datagram_frame-decode_udp_datagram :
    (valid_utf8 : Bytes → Bool) (w : Wire) (h : ProxyHeader) (payload rest : Bytes)
    → AreBytes w.input
    → decode_udp_datagram w.input ≡ ok (h, payload, rest)
    → read_udp_datagram_frame valid_utf8 w
      ≡ owned_frame valid_utf8 h payload (record w { input = rest })
read_udp_datagram_frame-decode_udp_datagram valid_utf8 w h payload rest v e =
    let d = decode_udp_datagram-parts w.input h payload rest _ v refl e in
    ap (λ (b : Bytes). read_udp_datagram_frame valid_utf8 (record w { input = b }))
      (d.4 ∙ sym (append_assoc (metadata_wire h.address h.port) (payload_wire payload) rest))
    ∙ read_udp_datagram_frame-wire valid_utf8 h payload (record w { input = rest }) d.0 d.1 d.3

for_ip-IsHeader :
    (n : Network) (ip : IpAddr) (port : ℕ)
    → IsIpAddr ip
    → IsPort port
    → IsHeader (proxy_header_for_ip n ip port)
      × Fits (proxy_header_for_ip n ip port).address
      × ((proxy_header_for_ip n ip port).network ≡ n)
for_ip-IsHeader n (v4 octets) port a p = (record { address = a; port = p }, tt, refl)
for_ip-IsHeader n (v6 octets) port a p = (record { address = a; port = p }, tt, refl)

owned-for_ip :
    (valid_utf8 : Bytes → Bool) (n : Network) (ip : IpAddr) (port : ℕ)
    → from_borrowed valid_utf8 (proxy_header_for_ip n ip port) ≡ ok (from_ip n ip port)
owned-for_ip valid_utf8 n (v4 octets) port = refl
owned-for_ip valid_utf8 n (v6 octets) port = refl

-- A response that the server writes for a peer's address is read by the client's side as a frame
-- with that address and that payload, and nothing of what follows is taken.
pub read-write_udp_over_stream_response :
    (valid_utf8 : Bytes → Bool) (peer : SocketAddr) (response : Bytes) (sender receiver : Wire)
    → IsIpAddr peer.ip
    → IsPort peer.port
    → length response ≤ 65535
    → (wire : Bytes) × (write_udp_over_stream_response peer response sender
        ≡ (ok tt, record sender { output = sender.output ++ wire }))
      × (read_udp_datagram_frame valid_utf8 (before wire receiver)
          ≡ (ok (record { header = from_ip udp peer.ip peer.port; payload = response }), receiver))
unfolding write_udp_over_stream_response
read-write_udp_over_stream_response valid_utf8 peer response sender receiver a p k =
    let h = proxy_header_for_ip udp peer.ip peer.port in
    let (v, f, u) = for_ip-IsHeader udp peer.ip peer.port a p in
    (
      datagram_wire h response,
      ground (arith, encode_udp_datagram-wire h response [] f k),
      read_udp_datagram_frame-wire valid_utf8 h response receiver v u k
          ∙ ground (arith, owned-for_ip valid_utf8 udp peer.ip peer.port),
    )
