-- ===== src/Transport/Tuic/Fragment/Transfer.antt =====
-- A UDP payload is cut into TUIC packets that fit the datagram size.
use zuicity.Prelude.{
  ℕ, zero, suc, ◌+◌, ◌-◌, ◌≤◌, ◌<◌, ◌≡◌, refl, sym, ap, ◌∙◌, inl, inr, List, [], ◌∷◌, ◌++◌, true,
  Bool-cases, arith, leb, leb→le, length, take, drop, length-append, take-append-drop, length-take,
  length-drop, take_all, Outcome, ok,
}
use zuicity.Prelude.Bytes.{Bytes, concat}
use zuicity.Protocol.{udp}
use zuicity.Transport.Defs.{IsOwnedHeader, TransportError}
use zuicity.Transport.Tuic.Fragment.{
  TuicOutboundUdpPacket, encode_within, encode_tuic_udp_fragments, div_ceil,
}
use zuicity.Transport.Tuic.Fragment.Wire.{
  Fits, target_wire, fragment_wire, encode_tuic_udp_fragment-wire, tuic_target_encoded_len-wire,
}
use zuicity.Transport.Tuic.Fragment.Split.{
  cut, length-cut, concat-cut, div_ceil-le, div_ceil-zero, encode_chunks, encode_loop-packet,
}

-- The packets for some chunks, from number `i` on.
abbrev pub wires : TuicOutboundUdpPacket → ℕ → ℕ → List Bytes → List Bytes
wires p total i [] = []
wires p total i (c ∷ chunks) =
    fragment_wire p.header p.association_id p.packet_id total i c ∷ wires p total (i + 1) chunks

abbrev pub AllShort : ℕ → List Bytes → Type 0
AllShort n [] = Unit
AllShort n (c ∷ chunks) = (length c ≤ n) × AllShort n chunks

encode_chunks-wires :
    (p : TuicOutboundUdpPacket) (total i : ℕ) (chunks : List Bytes)
    → Fits p.header.address
    → AllShort 65535 chunks
    → encode_chunks p total i chunks ≡ ok (wires p total i chunks)
unfolding encode_chunks
encode_chunks-wires p total i [] f k = refl
encode_chunks-wires p total i (c ∷ chunks) f k = ground (
  arith,
  encode_tuic_udp_fragment-wire p.header c p.association_id p.packet_id total i f k.0,
  encode_chunks-wires p total (i + 1) chunks f k.1,
)

-- Pieces are no longer than the piece size, and no longer than what is cut.
AllShort-cut : (size n : ℕ) (bytes : Bytes) → AllShort size (cut size n bytes)
AllShort-cut size zero bytes = tt
AllShort-cut size (suc n) bytes =
    (omega (arith, length-take size bytes), AllShort-cut size n (drop size bytes))

AllShort-cut_bytes :
    (m size n : ℕ) (bytes : Bytes) → length bytes ≤ m → AllShort m (cut size n bytes)
AllShort-cut_bytes m size zero bytes h = tt
AllShort-cut_bytes m size (suc n) bytes h = (
  omega (arith, length-take size bytes),
  AllShort-cut_bytes m size n (drop size bytes) (omega (arith, length-drop size bytes)),
)

-- The chunks of a payload, where the first packet has room for `first` bytes and each other one
-- for `other`.
abbrev pub packet_chunks : ℕ → ℕ → Bytes → List Bytes
packet_chunks first other payload =
    take first payload ∷ cut other (div_ceil (length payload - first) other) (drop first payload)

pub concat-packet_chunks :
    (first other : ℕ) (payload : Bytes)
    → 0 < other
    → concat (packet_chunks first other payload) ≡ payload
concat-packet_chunks first other payload h =
    ap (◌++◌ (take first payload)) (
      concat-cut other _ (drop first payload)
        (omega (arith, length-drop first payload, div_ceil-le (length payload - first) other h)))
    ∙ take-append-drop first payload

module _ (p : TuicOutboundUdpPacket) (first other : ℕ) (f : Fits p.header.address)
    (short : length p.payload ≤ 65535) (room : 0 < first) (room' : 0 < other)
    (few : div_ceil (length p.payload - first) other ≤ 254) where
  chunks_short : AllShort 65535 (packet_chunks first other p.payload)
  chunks_short = (
    omega (arith, length-take first p.payload),
    AllShort-cut_bytes 65535 other _ (drop first p.payload)
        (omega (arith, length-drop first p.payload)),
  )

  one_chunk : length p.payload ≤ first → packet_chunks first other p.payload ≡ p.payload ∷ []
  one_chunk h = rw (take_all first p.payload h) (
      ap (λ d. p.payload ∷ cut other d (drop first p.payload))
        (div_ceil-zero (length p.payload - first) other (omega arith) room'))

  encode_one :
      leb (length p.payload) first ≡ true
      → encode_within p first other ≡ ok (wires p 1 0 (p.payload ∷ []))
  unfolding encode_within
  encode_one one = ground (
    arith,
    encode_tuic_udp_fragment-wire p.header p.payload p.association_id p.packet_id 1 0 f short,
  )

  encode_within-wires :
      encode_within p first other
      ≡ ok (
          wires p
            (length (packet_chunks first other p.payload))
            0
            (packet_chunks first other p.payload))
  unfolding encode_within
  encode_within-wires = elim (Bool-cases (leb (length p.payload) first)) [
    | inl one ↦
        encode_one one
        ∙ ap
            (λ (chunks : List Bytes).
              let o : Outcome TransportError (List Bytes) = ok (wires p (length chunks) 0 chunks) in
              o)
            (sym (one_chunk (leb→le _ _ one)))
    | inr many ↦ ground (
      arith,
      encode_loop-packet p first other (suc d) d,
      encode_chunks-wires p (suc d) 0 (packet_chunks first other p.payload) f chunks_short,
      length-cut other d (drop first p.payload),
    )
  ]
    where
      d : ℕ
      d = div_ceil (length p.payload - first) other

-- The packets are no longer than the datagram size.
wires-AllShort :
    (p : TuicOutboundUdpPacket) (size total i : ℕ) (chunks : List Bytes)
    → 0 < i
    → 11 < size
    → AllShort (size - 11) chunks
    → AllShort size (wires p total i chunks)
wires-AllShort p size total i [] k h s = tt
wires-AllShort p size total i (c ∷ chunks) k h s =
    (ground (arith, s.0), wires-AllShort p size total (i + 1) chunks (omega arith) h s.1)

-- What the sender needs of a packet: a UDP header whose domain fits one length byte, a payload that
-- fits the length field, and a datagram size with room for payload in the first and in the other
-- packets such that 255 packets are enough.
pub record IsSendable (p : TuicOutboundUdpPacket) (size : ℕ) : Type 0 where
  pub network : p.header.network ≡ udp
  pub header : IsOwnedHeader p.header
  pub fits : Fits p.header.address
  pub short : length p.payload ≤ 65535
  pub room : 10 + length (target_wire p.header.address p.header.port) < size
  pub room_other : 11 < size
  pub few :
      div_ceil
        (length p.payload - (size - (10 + length (target_wire p.header.address p.header.port))))
        (size - 11)
      ≤ 254

-- The chunks that the sender cuts.
abbrev pub sent_chunks : TuicOutboundUdpPacket → ℕ → List Bytes
sent_chunks p size =
    packet_chunks (size - (10 + length (target_wire p.header.address p.header.port))) (size - 11)
      p.payload

encode_sendable :
    (p : TuicOutboundUdpPacket) (size : ℕ)
    → IsSendable p size
    → encode_tuic_udp_fragments p size
      ≡ ok (wires p (length (sent_chunks p size)) 0 (sent_chunks p size))
unfolding encode_tuic_udp_fragments
encode_sendable p size v = ground (
  arith,
  tuic_target_encoded_len-wire p.header.address p.header refl v.fits v.header.address,
  encode_within-wires p (size - (10 + length (target_wire p.header.address p.header.port)))
      (size - 11) v.fits v.short (omega (arith, v.room)) (omega (arith, v.room_other)) v.few,
)

-- A sendable packet is cut into 1 to 255 TUIC packets, one for each chunk and numbered from 0; the
-- chunks put together are the payload, and no TUIC packet is longer than the datagram size.
pub encode_tuic_udp_fragments-wires :
    (p : TuicOutboundUdpPacket) (size : ℕ)
    → IsSendable p size
    → (encode_tuic_udp_fragments p size
        ≡ ok (wires p (length (sent_chunks p size)) 0 (sent_chunks p size)))
      × (concat (sent_chunks p size) ≡ p.payload)
      × (length (sent_chunks p size) ≤ 255)
      × AllShort size (wires p (length (sent_chunks p size)) 0 (sent_chunks p size))
encode_tuic_udp_fragments-wires p size v = (
  encode_sendable p size v,
  concat-packet_chunks _ (size - 11) p.payload (omega (arith, v.room_other)),
  omega (arith, v.few, length-cut (size - 11) _ (drop (size - (10 + length target)) p.payload)),
  (
    omega (
      arith,
      v.room,
      length-append target (take (size - (10 + length target)) p.payload),
      length-take (size - (10 + length target)) p.payload,
    ),
    wires-AllShort p size _ 1 _ (omega arith) v.room_other
        (AllShort-cut (size - 11) _ (drop (size - (10 + length target)) p.payload)),
  ),
)
  where
    target : Bytes
    target = target_wire p.header.address p.header.port

pub sent_chunks_short :
    (p : TuicOutboundUdpPacket) (size : ℕ) → IsSendable p size → AllShort 65535 (sent_chunks p size)
sent_chunks_short p size v =
    chunks_short p (size - (10 + length (target_wire p.header.address p.header.port))) (size - 11)
      v.fits v.short (omega (arith, v.room)) (omega (arith, v.room_other)) v.few
