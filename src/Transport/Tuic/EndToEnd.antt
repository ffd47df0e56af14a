-- ===== src/Transport/Tuic/EndToEnd.antt =====
-- From the sender's payload to the receiver's: the packets of `encode_tuic_udp_fragments`, decoded
-- and put together by the reassembler.
use zuicity.Prelude.{
  ℕ, zero, suc, ◌+◌, ◌≤◌, ◌<◌, ◌≡◌, refl, sym, ap, ◌∙◌, List, [], ◌∷◌, none, some, arith, length,
  get_or, ok, subst, Outcome,
}
use zuicity.Prelude.Bytes.{Bytes}
use zuicity.Transport.Defs.{SocketAddr, TransportError}
use zuicity.Transport.Tuic.Target.{Resolver}
use zuicity.Transport.Tuic.Fragment.{
  TuicOutboundUdpPacket, TuicUdpFragment, decode_tuic_udp_fragment, encode_tuic_udp_fragments,
}
use zuicity.Transport.Tuic.Fragment.Wire.{Resolves, fragment_wire, decode_tuic_udp_fragment-wire}
use zuicity.Transport.Tuic.Fragment.Transfer.{
  AllShort, wires, IsSendable, sent_chunks, encode_tuic_udp_fragments-wires, sent_chunks_short,
}
use zuicity.Transport.Tuic.Reassembly.{Buffers, Accepted, accept}
use zuicity.Transport.Tuic.Reassembly.Delivery.{All, Distinct, Packet, fragment, accept-one}
use zuicity.Transport.Tuic.Reassembly.Interleaving.{
  Arrival, own_ids, AreOthers, feed, delivered, feed_delivers,
}

length-wires :
    (p : TuicOutboundUdpPacket) (total i : ℕ) (chunks : List Bytes)
    → length (wires p total i chunks) ≡ length chunks
length-wires p total i [] = refl
length-wires p total i (c ∷ chunks) = ap suc (length-wires p total (i + 1) chunks)

get_or-wires :
    (p : TuicOutboundUdpPacket) (total i j : ℕ) (chunks : List Bytes)
    → j < length chunks
    → get_or (wires p total i chunks) j []
      ≡ fragment_wire p.header p.association_id p.packet_id total (i + j) (get_or chunks j [])
get_or-wires p total i j [] h = absurd (omega arith)
get_or-wires p total i zero (c ∷ chunks) h =
    ap (λ n. fragment_wire p.header p.association_id p.packet_id total n c)
      (let e : i ≡ i + zero = omega arith in e)
get_or-wires p total i (suc j) (c ∷ chunks) h =
    get_or-wires p total (i + 1) j chunks (omega arith)
    ∙ ap (λ n. fragment_wire p.header p.association_id p.packet_id total n (get_or chunks j []))
        (let e : i + 1 + j ≡ i + suc j = omega arith in e)

AllShort-get_or :
    (n : ℕ) (chunks : List Bytes) (j : ℕ) → AllShort n chunks → length (get_or chunks j []) ≤ n
AllShort-get_or n [] j h = omega arith
AllShort-get_or n (c ∷ chunks) zero h = h.0
AllShort-get_or n (c ∷ chunks) (suc j) h = AllShort-get_or n chunks j h.1

-- The packet as the receiver knows it.
abbrev pub received_packet : TuicOutboundUdpPacket → ℕ → SocketAddr → Packet
received_packet p size t = record {
  association_id = p.association_id;
  packet_id = p.packet_id;
  target = t;
  chunks = sent_chunks p size;
}

-- Each packet on the wire is decoded to the fragment of its number.
decode-wires :
    (net : Resolver) (p : TuicOutboundUdpPacket) (size : ℕ) (t : SocketAddr) (i : ℕ)
    → IsSendable p size
    → p.association_id < 65536
    → p.packet_id < 65536
    → Resolves net p.header.address p.header.port t
    → i < length (sent_chunks p size)
    → decode_tuic_udp_fragment net
        (get_or (wires p (length (sent_chunks p size)) 0 (sent_chunks p size)) i [])
      ≡ ok (fragment (received_packet p size t) i)
decode-wires net p size t i v ha hp r h =
    ap (decode_tuic_udp_fragment net) (
      get_or-wires p (length (sent_chunks p size)) 0 i (sent_chunks p size) h
      ∙ ap
          (λ n.
            fragment_wire p.header p.association_id p.packet_id (length (sent_chunks p size)) n
              (get_or (sent_chunks p size) i []))
          (let e : 0 + i ≡ i = omega arith in e))
    ∙ decode_tuic_udp_fragment-wire net p.header v.header t r p.association_id p.packet_id
        (length (sent_chunks p size)) i (get_or (sent_chunks p size) i []) ha hp h
        (AllShort-get_or 65535 (sent_chunks p size) i (sent_chunks_short p size v))

-- A predicate of each element with its number, from `i` on.
abbrev pub AllAt : (ℕ → Bytes → Type 0) → ℕ → List Bytes → Type 0
AllAt P i [] = Unit {0}
AllAt P i (b ∷ bs) = P i b × AllAt P (i + 1) bs

AllAt-get_or :
    (P : ℕ → Bytes → Type 0) (i : ℕ) (bs : List Bytes)
    → ((j : ℕ) → j < length bs → P (i + j) (get_or bs j []))
    → AllAt P i bs
AllAt-get_or P i [] f = tt
AllAt-get_or P i (b ∷ bs) f = (
  subst (λ n. P n b) (let e : i + zero ≡ i = omega arith in e) (f zero (omega arith)),
  AllAt-get_or P (i + 1) bs (λ j h.
      subst (λ n. P n (get_or bs j [])) (let e : i + suc j ≡ i + 1 + j = omega arith in e)
        (f (suc j) (omega arith))),
)

-- The bytes decode to the packet's fragment of that number.
abbrev pub IsDecodedTo : Resolver → Packet → ℕ → Bytes → Type 0
IsDecodedTo net k i bytes = decode_tuic_udp_fragment net bytes ≡ ok (fragment k i)

all_decode :
    (net : Resolver) (p : TuicOutboundUdpPacket) (size : ℕ) (t : SocketAddr)
    → IsSendable p size
    → p.association_id < 65536
    → p.packet_id < 65536
    → Resolves net p.header.address p.header.port t
    → AllAt
        (IsDecodedTo net (received_packet p size t))
        0
        (wires p (length (sent_chunks p size)) 0 (sent_chunks p size))
all_decode net p size t v ha hp r =
    AllAt-get_or (IsDecodedTo net (received_packet p size t)) 0
      (wires p (length (sent_chunks p size)) 0 (sent_chunks p size))
      (λ j h.
        decode-wires net p size t j v ha hp r
          (omega (arith, length-wires p (length (sent_chunks p size)) 0 (sent_chunks p size)))
        ∙ ap
            (λ n.
              let o : Outcome TransportError TuicUdpFragment =
                ok (fragment (received_packet p size t) n) in
              o)
            (let e : j ≡ 0 + j = omega arith in e))

-- A UDP payload that needs two or more TUIC packets crosses the relay unchanged. The sender's
-- packets decode, each to the fragment of its number; and if each fragment arrives once, in any
-- order and among any fragments of other packets, and no buffer stands under the key before, every
-- fragment but the last gives nothing, and the last gives the payload with the target.
pub tuic_delivery :
    (net : Resolver) (p : TuicOutboundUdpPacket) (size : ℕ) (t : SocketAddr) (es : List Arrival)
    (buffers : Buffers)
    → IsSendable p size
    → p.association_id < 65536
    → p.packet_id < 65536
    → Resolves net p.header.address p.header.port t
    → 1 < length (sent_chunks p size)
    → buffers p.association_id p.packet_id ≡ none
    → AreOthers (received_packet p size t) es
    → All (λ i. i < length (sent_chunks p size)) (own_ids es)
    → Distinct (own_ids es)
    → length (own_ids es) ≡ length (sent_chunks p size)
    → (packets : List Bytes) × (encode_tuic_udp_fragments p size ≡ ok packets)
      × (length packets ≡ length (own_ids es))
      × AllAt (IsDecodedTo net (received_packet p size t)) 0 packets
      × ((feed (received_packet p size t) buffers es).0 ≡ delivered p.payload t (own_ids es))
tuic_delivery net p size t es buffers v ha hp r two fresh others inside distinct once =
    let chunks = sent_chunks p size in
    let (encoded, whole, few, fits) = encode_tuic_udp_fragments-wires p size v in
    (
      wires p (length chunks) 0 chunks,
      encoded,
      length-wires p (length chunks) 0 chunks ∙ sym once,
      all_decode net p size t v ha hp r,
      (feed_delivers (received_packet p size t) es buffers few two fresh others inside distinct
            once).0
          ∙ ap (λ payload. delivered payload t (own_ids es)) whole,
    )

-- A UDP payload that needs one TUIC packet: the packet decodes to its only fragment, which is
-- delivered at once, with the payload and the target, and touches no buffer.
pub tuic_delivery_alone :
    (net : Resolver) (p : TuicOutboundUdpPacket) (size : ℕ) (t : SocketAddr) (now : ℕ)
    (buffers : Buffers)
    → IsSendable p size
    → p.association_id < 65536
    → p.packet_id < 65536
    → Resolves net p.header.address p.header.port t
    → length (sent_chunks p size) ≡ 1
    → (packets : List Bytes) × (encode_tuic_udp_fragments p size ≡ ok packets)
      × (length packets ≡ 1)
      × AllAt (IsDecodedTo net (received_packet p size t)) 0 packets
      × (accept now buffers (fragment (received_packet p size t) 0)
          ≡ (ok (some (p.payload, t)), buffers))
tuic_delivery_alone net p size t now buffers v ha hp r one =
    let chunks = sent_chunks p size in
    let (encoded, whole, few, fits) = encode_tuic_udp_fragments-wires p size v in
    (
      wires p (length chunks) 0 chunks,
      encoded,
      length-wires p (length chunks) 0 chunks ∙ one,
      all_decode net p size t v ha hp r,
      accept-one (received_packet p size t) now buffers one
          ∙ ap (λ (payload : Bytes). let a : Accepted = (ok (some (payload, t)), buffers) in a)
              whole,
    )
