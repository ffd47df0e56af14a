-- ===== src/Transport/Tuic/Connect/Tests.antt =====
-- A TUIC connect request on concrete bytes.
use zuicity.Prelude.{◌≡◌, refl, [], ◌∷◌, Bool, true, arith, ok}
use zuicity.Prelude.Bytes.{Bytes}
use zuicity.Session.{Wire, finished}
use zuicity.Session.Laws.{before}
use zuicity.Protocol.{tcp}
use zuicity.Transport.Defs.{OwnedProxyHeader, domain}
use zuicity.Transport.Tuic.Connect.{
  write_tuic_tcp_connect, read_tuic_connect_header_prefix, read-write_tuic_tcp_connect,
}

abbrev all_utf8 : Bytes → Bool
all_utf8 _ = true

abbrev site : OwnedProxyHeader
site = record { network = tcp; address = domain (97 ∷ 46 ∷ 105 ∷ 111 ∷ []); port = 443 }

abbrev stream : Bytes → Wire
stream text = record { input = text; closing = finished; output = [] }

read-write_tuic_tcp_connect_example :
    (sent : Bytes) × (write_tuic_tcp_connect site (stream [])
      ≡ (ok tt, record (stream []) { output = sent }))
    × (read_tuic_connect_header_prefix all_utf8 (before sent (stream (9 ∷ [])))
        ≡ (ok (site, []), stream (9 ∷ [])))
read-write_tuic_tcp_connect_example =
    read-write_tuic_tcp_connect all_utf8 site (stream []) (stream (9 ∷ [])) refl (omega arith, refl)
      (omega arith)
