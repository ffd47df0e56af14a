-- ===== src/Transport/Tests.antt =====
-- The transport's parts on concrete packets and datagrams.
use zuicity.Prelude.{◌≤◌, ◌≡◌, ◌≢◌, refl, List, [], ◌∷◌, true, none, some, arith, length, ok, panic}
use zuicity.Prelude.Bytes.{Bytes, concat}
use zuicity.Protocol.{udp}
use zuicity.Transport.Defs.{v4, SocketAddr}
use zuicity.Transport.Defs.OwnedProxyAddress.{ipv4}
use zuicity.Transport.Tuic.Target.{Resolver}
use zuicity.Transport.Tuic.Fragment.{
  TuicOutboundUdpPacket, TuicUdpFragment, decode_tuic_udp_fragment, encode_tuic_udp_fragments,
}
use zuicity.Transport.Tuic.Fragment.Sound.{IsTotal, IsSound, decode_tuic_udp_fragment-IsSound}
use zuicity.Transport.Tuic.Fragment.Transfer.{
  AllShort, wires, IsSendable, sent_chunks, encode_tuic_udp_fragments-wires,
}
use zuicity.Transport.Tuic.Reassembly.{no_buffers, accept}
use zuicity.Transport.Tuic.Reassembly.Delivery.{Packet}
use zuicity.Transport.Tuic.Reassembly.Invariant.{
  IsFragment, IsReassembler, Event, accepts, collects, run, run-Keeps,
}
use zuicity.Transport.Tuic.Reassembly.Interleaving.{
  Arrival, own, other, own_ids, feed, delivered, feed_delivers,
}
use zuicity.Transport.Hysteria2.Packet.{encode_hysteria2_udp_packet, decode_hysteria2_udp_packet}
use zuicity.Transport.Hysteria2.Packet.RoundTrip.{decode-encode_hysteria2_udp_packet}
use zuicity.Prelude.Bytes.{index, slice}
use zuicity.Transport.Tuic.Target.{decode_target_ipv4, decode_tuic_udp_target}
use zuicity.Transport.Tuic.Packet.{packet_payload, decode_tuic_udp_packet}
use zuicity.Transport.Tuic.Packet.Agreement.{decode_tuic_udp_packet-agrees}
use zuicity.Transport.DialerLink.{is_utf8_pair, hex_value, from_hex_pair, percent_decode_bytes}
use zuicity.Transport.DialerLink.Percent.{percent_decode-percent_encode}
use zuicity.Config.Userinfo.{percent_encode_userinfo}
use zuicity.Transport.Tuic.EndToEnd.{received_packet, AllAt, IsDecodedTo, tuic_delivery}

abbrev octets : Bytes
octets = 1 ∷ 2 ∷ 3 ∷ 4 ∷ []

abbrev target : SocketAddr
target = record { ip = v4 octets; port = 53 }

-- A resolver that finds the target for every name.
abbrev net : Resolver
net = record { valid_utf8 = λ _. true; to_socket_addrs = λ _ _. ok (target ∷ []) }

abbrev packet : TuicOutboundUdpPacket
packet = record {
  association_id = 7;
  packet_id = 8;
  header = record { network = udp; address = ipv4 octets; port = 53 };
  payload = 10 ∷ 11 ∷ 12 ∷ 13 ∷ 14 ∷ 15 ∷ 16 ∷ 17 ∷ 18 ∷ 19 ∷ [];
}

-- Of another association.
abbrev stray : TuicUdpFragment
stray = record {
  association_id = 9;
  packet_id = 8;
  fragment_total = 3;
  fragment_id = 1;
  target = none;
  payload = 1 ∷ [];
}

abbrev arrivals : List Arrival
arrivals = own 5 1 ∷ other 6 stray ∷ own 7 0 ∷ []

packet-IsSendable : IsSendable packet 20
packet-IsSendable = record {
  network = refl;
  header = record {
    address = (refl, (omega arith, (omega arith, (omega arith, (omega arith, tt)))));
    port = omega arith;
  };
  fits = tt;
  short = omega arith;
  room = omega arith;
  room_other = omega arith;
  few = omega arith;
}

packet-IsSendable_alone : IsSendable packet 60
packet-IsSendable_alone = record {
  network = refl;
  header = record {
    address = (refl, (omega arith, (omega arith, (omega arith, (omega arith, tt)))));
    port = omega arith;
  };
  fits = tt;
  short = omega arith;
  room = omega arith;
  room_other = omega arith;
  few = omega arith;
}

tuic_delivery_example :
    (packets : List Bytes) × (encode_tuic_udp_fragments packet 20 ≡ ok packets)
    × (length packets ≡ length (own_ids arrivals))
    × AllAt (IsDecodedTo net (received_packet packet 20 target)) 0 packets
    × ((feed (received_packet packet 20 target) no_buffers arrivals).0
        ≡ delivered packet.payload target (own_ids arrivals))
tuic_delivery_example =
    tuic_delivery net packet 20 target arrivals no_buffers packet-IsSendable (omega arith)
      (omega arith) refl (omega arith) refl (refl, tt) (omega arith, (omega arith, tt))
      (((ground arith), tt), (tt, tt)) refl

abbrev parts : Packet
parts = record {
  association_id = 1;
  packet_id = 2;
  target = target;
  chunks = (1 ∷ []) ∷ (2 ∷ 3 ∷ []) ∷ [];
}

feed_delivers_example :
    ((feed parts no_buffers arrivals).0 ≡ delivered (concat parts.chunks) target (own_ids arrivals))
    × ((feed parts no_buffers arrivals).1 1 2 ≡ none)
feed_delivers_example =
    feed_delivers parts arrivals no_buffers (omega arith) (omega arith) refl (refl, tt)
      (omega arith, (omega arith, tt)) (((ground arith), tt), (tt, tt)) refl

abbrev events : List Event
events = accepts 1 stray ∷ collects 2 ∷ accepts 3 stray ∷ []

stray-IsFragment : IsFragment stray
stray-IsFragment = record { within = omega arith; total_is_u8 = omega arith }

run-Keeps_example :
    IsReassembler (run no_buffers events) × ((accept 4 (run no_buffers events) stray).0 ≢ panic)
run-Keeps_example =
    run-Keeps events 4 stray (stray-IsFragment, (stray-IsFragment, tt)) stray-IsFragment

encode_tuic_udp_fragments-wires_example :
    (encode_tuic_udp_fragments packet 20
      ≡ ok (wires packet (length (sent_chunks packet 20)) 0 (sent_chunks packet 20)))
    × (concat (sent_chunks packet 20) ≡ packet.payload)
    × (length (sent_chunks packet 20) ≤ 255)
    × AllShort 20 (wires packet (length (sent_chunks packet 20)) 0 (sent_chunks packet 20))
encode_tuic_udp_fragments-wires_example =
    encode_tuic_udp_fragments-wires packet 20 packet-IsSendable

net-IsTotal : IsTotal net
net-IsTotal name port = ground arith

decode_tuic_udp_fragment-IsSound_example :
    IsSound (decode_tuic_udp_fragment net (5 ∷ 2 ∷ 0 ∷ 1 ∷ []))
decode_tuic_udp_fragment-IsSound_example =
    decode_tuic_udp_fragment-IsSound net (5 ∷ 2 ∷ 0 ∷ 1 ∷ []) net-IsTotal
      (omega arith, (omega arith, (omega arith, (omega arith, tt))))

percent_decode-percent_encode_example :
    percent_decode_bytes (percent_encode_userinfo (97 ∷ 64 ∷ 255 ∷ [])) ≡ ok (97 ∷ 64 ∷ 255 ∷ [])
percent_decode-percent_encode_example =
    percent_decode-percent_encode (97 ∷ 64 ∷ 255 ∷ [])
      (omega arith, (omega arith, (omega arith, tt)))

-- A sign passes for a hexadecimal digit.
signed_escape : percent_decode_bytes (37 ∷ 43 ∷ 53 ∷ []) ≡ ok (5 ∷ [])
unfolding percent_decode_bytes from_hex_pair hex_value is_utf8_pair
signed_escape = refl

decode-encode_hysteria2_udp_packet_example :
    (packet : Bytes) × (encode_hysteria2_udp_packet 70000 5 0 1 (97 ∷ 58 ∷ 49 ∷ []) (1 ∷ 2 ∷ [])
      ≡ ok packet)
    × (decode_hysteria2_udp_packet (λ _. true) packet 70000
        ≡ ok (record { addr = 97 ∷ 58 ∷ 49 ∷ []; payload = 1 ∷ 2 ∷ [] }))
decode-encode_hysteria2_udp_packet_example =
    decode-encode_hysteria2_udp_packet (λ _. true) 70000 5 (97 ∷ 58 ∷ 49 ∷ []) (1 ∷ 2 ∷ [])
      (omega arith) (omega arith) (omega arith) (omega arith) (omega arith) refl

-- Association 7, packet 8, to 1.2.3.4:53, with two bytes.
abbrev raw_packet : Bytes
raw_packet = 5 ∷ 2 ∷ 0 ∷ 7 ∷ 0 ∷ 8 ∷ 1 ∷ 0 ∷ 0 ∷ 2 ∷ 1 ∷ 1 ∷ 2 ∷ 3 ∷ 4 ∷ 0 ∷ 53 ∷ 40 ∷ 41 ∷ []

raw_packet_decoded :
    decode_tuic_udp_packet net raw_packet 7
    ≡ ok (record { target = target; payload = 40 ∷ 41 ∷ [] })
unfolding decode_tuic_udp_packet packet_payload decode_tuic_udp_target decode_target_ipv4 index
    slice
raw_packet_decoded = refl

decode_tuic_udp_packet-agrees_example :
    (f : TuicUdpFragment) × (decode_tuic_udp_fragment net raw_packet ≡ ok f)
    × (f.association_id ≡ 7)
    × (accept 3 no_buffers f ≡ (ok (some (40 ∷ 41 ∷ [], target)), no_buffers))
decode_tuic_udp_packet-agrees_example =
    decode_tuic_udp_packet-agrees net raw_packet 7
      (record { target = target; payload = 40 ∷ 41 ∷ [] }) 3 no_buffers raw_packet_decoded
