-- ===== src/Protocol/Metadata/RoundTrip.antt =====
-- `encode_runtime_metadata` and then `decode_runtime_metadata`, by the kind of address.
use zuicity.Prelude.{
  ℕ, ◌+◌, ◌≤◌, ◌≡◌, refl, [], ◌∷◌, ◌++◌, append_assoc, arith, length, length-append, take-append,
  get_or-append_right, ok,
}
use zuicity.Prelude.Bytes.{Bytes, to_be_u16}
use zuicity.Protocol.Defs.{
  ProxyAddress, ipv4, ipv6, domain, IsAddress, IsPort, runtime_metadata_len,
}
use zuicity.Protocol.Metadata.{
  encode_runtime_metadata, decode_ipv4, decode_ipv6, decode_domain, decode_runtime_metadata,
}

-- The bytes that stand for an address and a port.
abbrev pub metadata_wire : ProxyAddress → ℕ → Bytes
metadata_wire (ipv4 octets) port = 1 ∷ (octets ++ to_be_u16 port)
metadata_wire (ipv6 octets) port = 4 ∷ (octets ++ to_be_u16 port)
metadata_wire (domain name) port = 3 ∷ length name ∷ (name ++ to_be_u16 port)

-- A domain has a one-byte length on the wire.
abbrev pub Fits : ProxyAddress → Type 0
Fits (domain name) = length name ≤ 255
Fits _ = Unit

pub encode_runtime_metadata-wire :
    (a : ProxyAddress) (port : ℕ) (dst : Bytes)
    → Fits a
    → encode_runtime_metadata a port dst ≡ (ok tt, dst ++ metadata_wire a port)
unfolding encode_runtime_metadata
encode_runtime_metadata-wire (ipv4 octets) port dst f = refl
encode_runtime_metadata-wire (ipv6 octets) port dst f = refl
encode_runtime_metadata-wire (domain name) port dst f = ground arith

pub length-metadata_wire :
    (a : ProxyAddress) (port : ℕ)
    → IsAddress a
    → length (metadata_wire a port) ≡ runtime_metadata_len a
unfolding runtime_metadata_len
length-metadata_wire (ipv4 octets) port v = omega (arith, length-append octets (to_be_u16 port))
length-metadata_wire (ipv6 octets) port v = omega (arith, length-append octets (to_be_u16 port))
length-metadata_wire (domain name) port v = omega (arith, length-append name (to_be_u16 port))

decode_ipv4-wire :
    (octets : Bytes) (port : ℕ) (rest : Bytes)
    → length octets ≡ 4
    → IsPort port
    → decode_ipv4 (1 ∷ (octets ++ (to_be_u16 port ++ rest))) ≡ ok (ipv4 octets, port, 7)
unfolding decode_ipv4
decode_ipv4-wire (a ∷ b ∷ c ∷ d ∷ []) port rest n p = ground arith
decode_ipv4-wire [] port rest n p = absurd (omega arith)
decode_ipv4-wire (a ∷ []) port rest n p = absurd (omega arith)
decode_ipv4-wire (a ∷ b ∷ []) port rest n p = absurd (omega arith)
decode_ipv4-wire (a ∷ b ∷ c ∷ []) port rest n p = absurd (omega arith)
decode_ipv4-wire (a ∷ b ∷ c ∷ d ∷ e ∷ r) port rest n p = absurd (omega arith)

decode_ipv6-wire :
    (octets : Bytes) (port : ℕ) (rest : Bytes)
    → length octets ≡ 16
    → IsPort port
    → decode_ipv6 (4 ∷ (octets ++ (to_be_u16 port ++ rest))) ≡ ok (ipv6 octets, port, 19)
unfolding decode_ipv6
decode_ipv6-wire octets port rest n p = ground (
  arith,
  length-append octets (to_be_u16 port ++ rest),
  take-append 16 octets (to_be_u16 port ++ rest),
  get_or-append_right octets (to_be_u16 port ++ rest) 16 0 0,
  get_or-append_right octets (to_be_u16 port ++ rest) 17 1 0,
)

decode_domain-wire :
    (name : Bytes) (port : ℕ) (rest : Bytes)
    → IsPort port
    → decode_domain (3 ∷ length name ∷ (name ++ (to_be_u16 port ++ rest)))
      ≡ ok (domain name, port, 4 + length name)
unfolding decode_domain
decode_domain-wire name port rest p = ground (
  arith,
  length-append name (to_be_u16 port ++ rest),
  take-append (length name) name (to_be_u16 port ++ rest),
  get_or-append_right name (to_be_u16 port ++ rest) (length name) 0 0,
  get_or-append_right name (to_be_u16 port ++ rest) (length name + 1) 1 0,
)

pub decode_runtime_metadata-wire :
    (a : ProxyAddress) (port : ℕ) (rest : Bytes)
    → IsAddress a
    → IsPort port
    → decode_runtime_metadata (metadata_wire a port ++ rest) ≡ ok (a, port, runtime_metadata_len a)
unfolding decode_runtime_metadata runtime_metadata_len
decode_runtime_metadata-wire (ipv4 octets) port rest v p =
    ground
      (arith, append_assoc octets (to_be_u16 port) rest, decode_ipv4-wire octets port rest v.0 p)
decode_runtime_metadata-wire (ipv6 octets) port rest v p =
    ground
      (arith, append_assoc octets (to_be_u16 port) rest, decode_ipv6-wire octets port rest v.0 p)
decode_runtime_metadata-wire (domain name) port rest v p =
    ground (arith, append_assoc name (to_be_u16 port) rest, decode_domain-wire name port rest p)
