-- ===== src/Transport/Trojan/Tests.antt =====
-- A Trojan UDP packet for a name.
use zuicity.Prelude.{◌≡◌, refl, [], ◌∷◌, true, arith, ok}
use zuicity.Prelude.Bytes.{Bytes}
use zuicity.Session.{Wire, finished}
use zuicity.Session.Laws.{before}
use zuicity.Protocol.{udp}
use zuicity.Transport.Defs.{v4, SocketAddr, OwnedProxyHeader, domain}
use zuicity.Transport.Tuic.Target.{Resolver}
use zuicity.Transport.Trojan.{write_trojan_udp_packet_frame, read_trojan_udp_packet_frame}
use zuicity.Transport.Trojan.Packet.{read-write_trojan_udp_packet_frame}

abbrev found : SocketAddr
found = record { ip = v4 (10 ∷ 0 ∷ 0 ∷ 1 ∷ []); port = 443 }

abbrev net : Resolver
net = record { valid_utf8 = λ _. true; to_socket_addrs = λ _ _. ok (found ∷ []) }

abbrev site : OwnedProxyHeader
site = record { network = udp; address = domain (97 ∷ 46 ∷ 105 ∷ 111 ∷ []); port = 443 }

abbrev stream : Bytes → Wire
stream text = record { input = text; closing = finished; output = [] }

read-write_trojan_udp_packet_frame_example :
    (sent : Bytes) × (write_trojan_udp_packet_frame site (1 ∷ 2 ∷ []) (stream [])
      ≡ (ok tt, record (stream []) { output = sent }))
    × (read_trojan_udp_packet_frame net 1500 (before sent (stream (9 ∷ [])))
        ≡ (ok (found, 1 ∷ 2 ∷ []), stream (9 ∷ [])))
read-write_trojan_udp_packet_frame_example =
    read-write_trojan_udp_packet_frame net site (1 ∷ 2 ∷ []) 1500 found (stream [])
      (stream (9 ∷ [])) (omega arith) (omega arith) refl (omega arith) (omega arith)
