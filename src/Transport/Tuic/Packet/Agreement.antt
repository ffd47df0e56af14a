-- ===== src/Transport/Tuic/Packet/Agreement.antt =====
-- `decode_tuic_udp_packet` beside `decode_tuic_udp_fragment`.
use zuicity.Prelude.{
  ℕ, ◌+◌, ◌*◌, ◌≤◌, ◌≡◌, refl, some, arith, length, get_or, take, drop, Outcome, ok, err, panic,
  ◌>>=◌,
}
use zuicity.Prelude.Bytes.{Bytes}
use zuicity.Transport.Defs.{SocketAddr, TransportError}
use zuicity.Transport.Tuic.Target.{Resolver, decode_tuic_udp_target}
use zuicity.Transport.Tuic.Fragment.{TuicUdpFragment, decode_address, decode_tuic_udp_fragment}
use zuicity.Transport.Tuic.Reassembly.{Buffers, accept}
use zuicity.Transport.Tuic.Packet.{TuicUdpPacket, packet_payload, decode_tuic_udp_packet}

-- The only fragment of a packet.
abbrev pub sole_fragment : Bytes → TuicUdpPacket → TuicUdpFragment
sole_fragment raw p = record {
  association_id = get_or raw 2 0 * 256 + get_or raw 3 0;
  packet_id = get_or raw 4 0 * 256 + get_or raw 5 0;
  fragment_total = 1;
  fragment_id = 0;
  target = some p.target;
  payload = p.payload;
}

-- What a packet that is accepted says of its bytes.
record Read (raw : Bytes) (association_id : ℕ) (p : TuicUdpPacket)
    (o : Outcome TransportError (SocketAddr × ℕ)) : Type 0 where
  long : 10 ≤ length raw
  version : get_or raw 0 0 ≡ 5
  command : get_or raw 1 0 ≡ 2
  association : get_or raw 2 0 * 256 + get_or raw 3 0 ≡ association_id
  total : get_or raw 6 0 ≡ 1
  number : get_or raw 7 0 ≡ 0
  tail : (o >>= packet_payload raw (get_or raw 8 0 * 256 + get_or raw 9 0)) ≡ ok p

packet-Read :
    (net : Resolver) (raw : Bytes) (association_id : ℕ) (p : TuicUdpPacket)
    → decode_tuic_udp_packet net raw association_id ≡ ok p
    → Read raw association_id p (decode_tuic_udp_target net raw 10)
unfolding decode_tuic_udp_packet
packet-Read net raw association_id p e = record {
  long = ground (arith, e);
  version = ground (arith, e);
  command = ground (arith, e);
  association = ground (arith, e);
  total = ground (arith, e);
  number = ground (arith, e);
  tail = ground (arith, e);
}

payload-Read :
    (raw : Bytes) (n offset : ℕ) (t : SocketAddr) (p : TuicUdpPacket)
    → packet_payload raw n (t, offset) ≡ ok p
    → (length raw ≡ offset + n) × (p.target ≡ t) × (p.payload ≡ take n (drop offset raw))
unfolding packet_payload
payload-Read raw n offset t p e = (ground (arith, e), ground (arith, e), ground (arith, e))

fragment-agrees :
    (net : Resolver) (raw : Bytes) (association_id : ℕ) (p : TuicUdpPacket)
    (o : Outcome TransportError (SocketAddr × ℕ))
    → decode_tuic_udp_target net raw 10 ≡ o
    → Read raw association_id p o
    → decode_tuic_udp_fragment net raw ≡ ok (sole_fragment raw p)
unfolding decode_tuic_udp_fragment decode_address
fragment-agrees net raw association_id p (ok (t, offset)) q r =
    let (size, same, cut) =
      payload-Read raw (get_or raw 8 0 * 256 + get_or raw 9 0) offset t p r.tail in
    ground (arith, q, size, same, cut, r.long, r.version, r.command, r.total, r.number)
fragment-agrees net raw association_id p (err x) q r = absurd (ground (arith, r.tail))
fragment-agrees net raw association_id p panic q r = absurd (ground (arith, r.tail))

sole-accepted :
    (raw : Bytes) (p : TuicUdpPacket) (now : ℕ) (buffers : Buffers)
    → accept now buffers (sole_fragment raw p) ≡ (ok (some (p.payload, p.target)), buffers)
unfolding accept
sole-accepted raw p now buffers = refl

-- What the dialer's decoder accepts for an association, the server's decoder accepts too, as the
-- only fragment of a packet of that association, and the reassembler delivers the same payload
-- and target at once, whatever its buffers.
pub decode_tuic_udp_packet-agrees :
    (net : Resolver) (raw : Bytes) (association_id : ℕ) (p : TuicUdpPacket) (now : ℕ)
    (buffers : Buffers)
    → decode_tuic_udp_packet net raw association_id ≡ ok p
    → (f : TuicUdpFragment) × (decode_tuic_udp_fragment net raw ≡ ok f)
      × (f.association_id ≡ association_id)
      × (accept now buffers f ≡ (ok (some (p.payload, p.target)), buffers))
decode_tuic_udp_packet-agrees net raw association_id p now buffers e =
    let r = packet-Read net raw association_id p e in
    (
      sole_fragment raw p,
      fragment-agrees net raw association_id p (decode_tuic_udp_target net raw 10) refl r,
      r.association,
      sole-accepted raw p now buffers,
    )
