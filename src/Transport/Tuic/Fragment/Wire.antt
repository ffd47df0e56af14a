-- ===== src/Transport/Tuic/Fragment/Wire.antt =====
-- One TUIC fragment on the wire: its bytes, and what the decoder makes of them.
use zuicity.Prelude.{
  ℕ, suc, ◌+◌, ◌/◌, ◌*◌, ◌%◌, ◌≤◌, ◌<◌, ◌≡◌, refl, ◌∙◌, List, [], ◌∷◌, ◌++◌, inl, inr, true, Option,
  none, some, Bool-cases, arith, append_assoc, ◌==◌, if◌then◌else◌, length, get_or, take, drop,
  length-append, take-append, drop-append, take_all, get_or-append_right, ok,
}
use zuicity.Prelude.Bytes.{Bytes, to_be_u16}
use zuicity.Protocol.{IsPort}
use zuicity.Transport.Defs.{
  v4, v6, SocketAddr, OwnedProxyAddress, ipv4, ipv6, domain, OwnedProxyHeader, IsOwnedHeader,
  IsOwnedAddress,
}
use zuicity.Transport.Tuic.Target.{
  Resolver, tuic_addr_none, encode_tuic_target, tuic_target_encoded_len, decode_target_ipv4,
  decode_target_ipv6, decode_target_domain, decode_tuic_udp_target,
}
use zuicity.Transport.Tuic.Fragment.{
  packet_head, encode_tuic_udp_fragment, decode_address, decode_tuic_udp_fragment, TuicUdpFragment,
}

-- The bytes that stand for an address and a port.
abbrev pub target_wire : OwnedProxyAddress → ℕ → Bytes
target_wire (ipv4 octets) port = 1 ∷ (octets ++ to_be_u16 port)
target_wire (ipv6 octets) port = 2 ∷ (octets ++ to_be_u16 port)
target_wire (domain name) port = 0 ∷ length name ∷ (name ++ to_be_u16 port)

abbrev pub Fits : OwnedProxyAddress → Type 0
Fits (domain name) = length name ≤ 255
Fits _ = Unit

-- The receiver's resolver takes the target of a header to a socket address.
abbrev pub Resolves : Resolver → OwnedProxyAddress → ℕ → SocketAddr → Type 0
Resolves net (ipv4 octets) port t = t ≡ record { ip = v4 octets; port = port }
Resolves net (ipv6 octets) port t = t ≡ record { ip = v6 octets; port = port }
Resolves net (domain name) port t =
    (net.valid_utf8 name ≡ true)
    × (ts : List SocketAddr) × (net.to_socket_addrs name port ≡ ok (t ∷ ts))

pub encode_tuic_target-wire :
    (a : OwnedProxyAddress) (h : OwnedProxyHeader) (output : Bytes)
    → h.address ≡ a
    → Fits a
    → encode_tuic_target h output ≡ (ok tt, output ++ target_wire a h.port)
unfolding encode_tuic_target
encode_tuic_target-wire (ipv4 octets) h output e f = ground arith
encode_tuic_target-wire (ipv6 octets) h output e f = ground arith
encode_tuic_target-wire (domain name) h output e f = ground arith

pub tuic_target_encoded_len-wire :
    (a : OwnedProxyAddress) (h : OwnedProxyHeader)
    → h.address ≡ a
    → Fits a
    → IsOwnedAddress a
    → tuic_target_encoded_len h ≡ ok (length (target_wire a h.port))
unfolding tuic_target_encoded_len
tuic_target_encoded_len-wire (ipv4 octets) h e f v =
    ground (arith, length-append octets (to_be_u16 h.port))
tuic_target_encoded_len-wire (ipv6 octets) h e f v =
    ground (arith, length-append octets (to_be_u16 h.port))
tuic_target_encoded_len-wire (domain name) h e f v =
    ground (arith, length-append name (to_be_u16 h.port))

-- A packet: ten bytes, the address and what follows.
abbrev Behind : (ℕ → ℕ → ℕ → ℕ → ℕ → Bytes → Bytes)
Behind a p total i len body = packet_head a p total i len ++ body

-- A domain address is read by four facts about the packet.
decode_target_domain-of :
    (net : Resolver) (raw : Bytes) (n : ℕ) (name : Bytes) (port : ℕ) (t : SocketAddr)
    (ts : List SocketAddr)
    → IsPort port
    → net.valid_utf8 name ≡ true
    → net.to_socket_addrs name port ≡ ok (t ∷ ts)
    → get_or raw 11 0 ≡ n
    → 14 + n ≤ length raw
    → take n (drop 12 raw) ≡ name
    → get_or raw (12 + n) 0 ≡ port / 256 % 256
    → get_or raw (13 + n) 0 ≡ port % 256
    → decode_target_domain net raw 10 ≡ ok (t, 14 + n)
unfolding decode_target_domain
decode_target_domain-of net raw n name port t ts q u r len long cut hi lo = ground arith

module _ (a p total i len : ℕ) where
  decode_target_ipv4-wire :
      (octets : Bytes) (port : ℕ) (rest : Bytes)
      → length octets ≡ 4
      → IsPort port
      → decode_target_ipv4 (Behind a p total i len (1 ∷ (octets ++ (to_be_u16 port ++ rest)))) 10
        ≡ ok (record { ip = v4 octets; port = port }, 17)
  unfolding decode_target_ipv4
  decode_target_ipv4-wire (a ∷ b ∷ c ∷ d ∷ []) port rest n q = ground arith
  decode_target_ipv4-wire [] port rest n q = absurd (omega arith)
  decode_target_ipv4-wire (a ∷ []) port rest n q = absurd (omega arith)
  decode_target_ipv4-wire (a ∷ b ∷ []) port rest n q = absurd (omega arith)
  decode_target_ipv4-wire (a ∷ b ∷ c ∷ []) port rest n q = absurd (omega arith)
  decode_target_ipv4-wire (a ∷ b ∷ c ∷ d ∷ e ∷ r) port rest n q = absurd (omega arith)

  decode_target_ipv6-wire :
      (octets : Bytes) (port : ℕ) (rest : Bytes)
      → length octets ≡ 16
      → IsPort port
      → decode_target_ipv6 (Behind a p total i len (2 ∷ (octets ++ (to_be_u16 port ++ rest)))) 10
        ≡ ok (record { ip = v6 octets; port = port }, 29)
  unfolding decode_target_ipv6
  decode_target_ipv6-wire octets port rest n q = ground (
    arith,
    length-append octets (to_be_u16 port ++ rest),
    take-append 16 octets (to_be_u16 port ++ rest),
    get_or-append_right octets (to_be_u16 port ++ rest) 16 0 0,
    get_or-append_right octets (to_be_u16 port ++ rest) 17 1 0,
  )

  decode_target_domain-wire :
      (net : Resolver) (name : Bytes) (port : ℕ) (rest : Bytes) (t : SocketAddr)
      (ts : List SocketAddr)
      → IsPort port
      → net.valid_utf8 name ≡ true
      → net.to_socket_addrs name port ≡ ok (t ∷ ts)
      → decode_target_domain net
          (Behind a p total i len (0 ∷ length name ∷ (name ++ (to_be_u16 port ++ rest))))
          10
        ≡ ok (t, 14 + length name)
  decode_target_domain-wire net name port rest t ts q u r =
      decode_target_domain-of net _ (length name) name port t ts q u r refl
        (omega (arith, length-append name (to_be_u16 port ++ rest)))
        (take-append (length name) name (to_be_u16 port ++ rest) refl)
        (ground (arith, get_or-append_right name (to_be_u16 port ++ rest) (length name) 0 0))
        (ground (arith, get_or-append_right name (to_be_u16 port ++ rest) (suc (length name)) 1 0))

  decode_tuic_udp_target-wire :
      (net : Resolver) (address : OwnedProxyAddress) (port : ℕ) (rest : Bytes) (t : SocketAddr)
      → IsOwnedAddress address
      → IsPort port
      → Resolves net address port t
      → decode_tuic_udp_target net (Behind a p total i len (target_wire address port ++ rest)) 10
        ≡ ok (t, 10 + length (target_wire address port))
  unfolding decode_tuic_udp_target
  decode_tuic_udp_target-wire net (ipv4 octets) port rest t v q r = ground (
    arith,
    append_assoc octets (to_be_u16 port) rest,
    length-append octets (to_be_u16 port),
    decode_target_ipv4-wire octets port rest v.0 q,
  )
  decode_tuic_udp_target-wire net (ipv6 octets) port rest t v q r = ground (
    arith,
    append_assoc octets (to_be_u16 port) rest,
    length-append octets (to_be_u16 port),
    decode_target_ipv6-wire octets port rest v.0 q,
  )
  decode_tuic_udp_target-wire net (domain name) port rest t v q r = ground (
    arith,
    append_assoc name (to_be_u16 port) rest,
    length-append name (to_be_u16 port),
    decode_target_domain-wire net name port rest t r.1 q r.0 r.2,
  )

-- The address of a fragment: the target for the first one, the none address for the others.
abbrev pub address_wire : OwnedProxyHeader → ℕ → Bytes
address_wire h i = if i == 0 then target_wire h.address h.port else tuic_addr_none ∷ []

abbrev pub fragment_wire : OwnedProxyHeader → (a p total i : ℕ) → Bytes → Bytes
fragment_wire h a p total i payload =
    packet_head a p total i (length payload) ++ (address_wire h i ++ payload)

pub encode_tuic_udp_fragment-wire :
    (h : OwnedProxyHeader) (payload : Bytes) (a p total i : ℕ)
    → Fits h.address
    → length payload ≤ 65535
    → encode_tuic_udp_fragment h payload a p total i (i == 0)
      ≡ ok (fragment_wire h a p total i payload)
unfolding encode_tuic_udp_fragment
encode_tuic_udp_fragment-wire h payload a p total i f k = ground (
  arith,
  encode_tuic_target-wire h.address h (packet_head a p total i (length payload)) refl f,
  append_assoc (target_wire h.address h.port) payload,
)

-- What the decoder makes of a fragment.
abbrev pub fragment_value : (a p total i : ℕ) → SocketAddr → Bytes → TuicUdpFragment
fragment_value a p total i t payload = record {
  association_id = a;
  packet_id = p;
  fragment_total = total;
  fragment_id = i;
  target = if i == 0 then some t else none;
  payload = payload;
}

-- A fragment is decoded by these facts about the packet.
decode_tuic_udp_fragment-of :
    (net : Resolver) (raw : Bytes) (total i n offset : ℕ) (target : Option SocketAddr)
    (payload : Bytes)
    → 10 ≤ length raw
    → get_or raw 0 0 ≡ 5
    → get_or raw 1 0 ≡ 2
    → get_or raw 6 0 ≡ total
    → get_or raw 7 0 ≡ i
    → i < total
    → get_or raw 8 0 * 256 + get_or raw 9 0 ≡ n
    → decode_address net raw i ≡ ok (target, offset)
    → length raw ≡ offset + n
    → take n (drop offset raw) ≡ payload
    → decode_tuic_udp_fragment net raw
      ≡ ok (record {
        association_id = get_or raw 2 0 * 256 + get_or raw 3 0;
        packet_id = get_or raw 4 0 * 256 + get_or raw 5 0;
        fragment_total = total;
        fragment_id = i;
        target = target;
        payload = payload;
      })
unfolding decode_tuic_udp_fragment
decode_tuic_udp_fragment-of net raw total i n offset target payload long v c t f w len addr size
      cut =
    ground arith

module _ (net : Resolver) (h : OwnedProxyHeader) (v : IsOwnedHeader h) (t : SocketAddr)
    (r : Resolves net h.address h.port t) (a p total i : ℕ) (payload : Bytes) where
  decode_address-wire :
      decode_address net (fragment_wire h a p total i payload) i
      ≡ ok (if i == 0 then some t else none, 10 + length (address_wire h i))
  unfolding decode_address
  decode_address-wire = elim (Bool-cases (i == 0)) [
    | inl first ↦ rw first (
        rw (
          decode_tuic_udp_target-wire a p total i (length payload) net h.address h.port payload t
            v.address v.port r))
    | inr later ↦ rw later (ground arith)
  ]

  -- The payload stands behind the address.
  payload_behind :
      take
        (length payload)
        (drop (10 + length (address_wire h i)) (fragment_wire h a p total i payload))
      ≡ payload
  payload_behind = ground (
    arith,
    drop-append (length (address_wire h i)) (address_wire h i) payload,
    take_all (length payload) payload,
  )

  pub decode_tuic_udp_fragment-wire :
      a < 65536
      → p < 65536
      → i < total
      → length payload ≤ 65535
      → decode_tuic_udp_fragment net (fragment_wire h a p total i payload)
        ≡ ok (fragment_value a p total i t payload)
  decode_tuic_udp_fragment-wire ha hp within k =
      decode_tuic_udp_fragment-of net (fragment_wire h a p total i payload) total i (length payload)
        (10 + length (address_wire h i)) _ payload (omega arith) refl refl refl refl within
        (omega arith) decode_address-wire (omega (arith, length-append (address_wire h i) payload))
        payload_behind
      ∙ ground arith
