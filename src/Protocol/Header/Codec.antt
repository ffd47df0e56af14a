-- ===== src/Protocol/Header/Codec.antt =====
-- Theorems on `ProxyHeader::encode_to` and `decode`.
use zuicity.Prelude.{
  ℕ, ◌<◌, ◌≡◌, ◌≢◌, refl, ap, ◌∙◌, [], ◌∷◌, ◌++◌, append_assoc, arith, length, drop-append,
  length-append, Outcome, ok, err, panic,
}
use zuicity.Prelude.Bytes.{Bytes, AreBytes}
use zuicity.Protocol.Defs.{
  ProtocolError, domain_too_long, Network, tcp, udp, network_as_u8, network_try_from, domain,
  ProxyHeader, encoded_len, IsAddress, IsPort, runtime_metadata_len,
}
use zuicity.Protocol.Metadata.{Metadata, Written, encode_runtime_metadata, decode_runtime_metadata}
use zuicity.Protocol.Metadata.RoundTrip.{
  Fits, metadata_wire, encode_runtime_metadata-wire, length-metadata_wire,
  decode_runtime_metadata-wire,
}
use zuicity.Protocol.Metadata.Canonical.{
  decode_runtime_metadata-Reads, decode_runtime_metadata-ne-panic, decode_runtime_metadata-consumed,
}
use zuicity.Protocol.Header.{encode_to, decode}

-- What the Rust types guarantee of a header.
pub record IsHeader (h : ProxyHeader) : Type 0 where
  pub address : IsAddress h.address
  pub port : IsPort h.port

abbrev pub header_wire : ProxyHeader → Bytes
header_wire h = network_as_u8 h.network ∷ metadata_wire h.address h.port

pub encode_to-wire :
    (h : ProxyHeader) (dst : Bytes)
    → Fits h.address
    → encode_to h dst ≡ (ok tt, dst ++ header_wire h)
unfolding encode_to
encode_to-wire h dst f =
    encode_runtime_metadata-wire h.address h.port (dst ++ network_as_u8 h.network ∷ []) f
    ∙ ap (λ (b : Bytes). let w : Written = (ok tt, b) in w)
        (append_assoc dst (network_as_u8 h.network ∷ []) (metadata_wire h.address h.port))

network_try_from-network_as_u8 : (n : Network) → network_try_from (network_as_u8 n) ≡ ok n
unfolding network_try_from network_as_u8
network_try_from-network_as_u8 tcp = refl
network_try_from-network_as_u8 udp = refl

pub decode-wire :
    (h : ProxyHeader) (rest : Bytes) → IsHeader h → decode (header_wire h ++ rest) ≡ ok (h, rest)
unfolding decode
decode-wire h rest v = ground (
  arith,
  network_try_from-network_as_u8 h.network,
  decode_runtime_metadata-wire h.address h.port rest v.address v.port,
  length-metadata_wire h.address h.port v.address,
  length-append (metadata_wire h.address h.port) rest,
  drop-append (runtime_metadata_len h.address) (metadata_wire h.address h.port) rest,
)

-- A header that fits the wire format is appended to the buffer in `encoded_len` bytes, and the
-- decoder returns it with exactly the bytes that follow it.
pub decode-encode_to :
    (h : ProxyHeader) (dst rest : Bytes)
    → IsHeader h
    → Fits h.address
    → (wire : Bytes) × (encode_to h dst ≡ (ok tt, dst ++ wire))
      × (length wire ≡ encoded_len h)
      × (decode (wire ++ rest) ≡ ok (h, rest))
unfolding encoded_len
decode-encode_to h dst rest v f = (
  header_wire h,
  encode_to-wire h dst f,
  omega (arith, length-metadata_wire h.address h.port v.address),
  decode-wire h rest v,
)

-- A domain of more than 255 bytes is refused by its length, with only the network byte written.
pub encode_to-domain_too_long :
    (h : ProxyHeader) (name dst : Bytes)
    → h.address ≡ domain name
    → 255 < length name
    → encode_to h dst ≡ (err (domain_too_long (length name)), dst ++ network_as_u8 h.network ∷ [])
unfolding encode_to encode_runtime_metadata
encode_to-domain_too_long h name dst e k = rw e (ground arith)

abbrev pub IsDecoded : Bytes → ProxyHeader → Bytes → Type 0
IsDecoded input h rest = IsHeader h × Fits h.address × (input ≡ header_wire h ++ rest)

pub network_try_from-eq-ok : (x : ℕ) (n : Network) → network_try_from x ≡ ok n → x ≡ network_as_u8 n
unfolding network_try_from network_as_u8
network_try_from-eq-ok x tcp h = ground arith
network_try_from-eq-ok x udp h = ground arith

pub network_try_from-ne-panic : (x : ℕ) → network_try_from x ≢ panic
unfolding network_try_from
network_try_from-ne-panic x = ground arith

decode-parts :
    (x : ℕ) (body : Bytes) (h : ProxyHeader) (rest : Bytes) (n : Outcome ProtocolError Network)
    (m : Outcome ProtocolError Metadata)
    → AreBytes body
    → network_try_from x ≡ n
    → decode_runtime_metadata body ≡ m
    → decode (x ∷ body) ≡ ok (h, rest)
    → IsDecoded (x ∷ body) h rest
unfolding decode
decode-parts x body h rest (ok n) (ok m) v p q e =
    ground (arith, decode_runtime_metadata-Reads body m v q, network_try_from-eq-ok x n p)
decode-parts x body h rest (err _) m v p q e = ground arith
decode-parts x body h rest panic m v p q e = ground arith
decode-parts x body h rest (ok n) (err _) v p q e = ground arith
decode-parts x body h rest (ok n) panic v p q e = ground arith

decode-nil-ne-ok : (h : ProxyHeader) (rest : Bytes) → decode [] ≢ ok (h, rest)
unfolding decode
decode-nil-ne-ok h rest = ground arith

pub decode-eq-ok :
    (input : Bytes) (h : ProxyHeader) (rest : Bytes)
    → AreBytes input
    → decode input ≡ ok (h, rest)
    → IsDecoded input h rest
decode-eq-ok [] h rest v e = absurd (decode-nil-ne-ok h rest e)
decode-eq-ok (x ∷ body) h rest v e = decode-parts x body h rest _ _ v.1 refl refl e

-- Whatever the decoder accepts is the encoding of the header it returns, followed by the bytes it
-- returns: there is one encoding of each header, and nothing is skipped.
pub decode-IsDecoded :
    (input : Bytes) (h : ProxyHeader) (rest : Bytes)
    → AreBytes input
    → decode input ≡ ok (h, rest)
    → (wire : Bytes) × (encode_to h [] ≡ (ok tt, wire)) × (input ≡ wire ++ rest) × IsHeader h
decode-IsDecoded input h rest v e =
    let d = decode-eq-ok input h rest v e in (header_wire h, encode_to-wire h [] d.1, d.2, d.0)

decode_outcome-ne-panic :
    (x : ℕ) (body : Bytes) (m : Outcome ProtocolError Metadata)
    → decode_runtime_metadata body ≡ m
    → decode (x ∷ body) ≢ panic
unfolding decode network_try_from
decode_outcome-ne-panic x body (ok m) q = ground (arith, decode_runtime_metadata-consumed body m q)
decode_outcome-ne-panic x body (err e) q = ground arith
decode_outcome-ne-panic x body panic q = absurd (decode_runtime_metadata-ne-panic body q)

decode-nil-ne-panic : decode [] ≢ panic
unfolding decode
decode-nil-ne-panic = ground arith

-- No input makes the decoder index or slice out of range.
pub decode-ne-panic : (input : Bytes) → decode input ≢ panic
decode-ne-panic [] = decode-nil-ne-panic
decode-ne-panic (x ∷ body) = decode_outcome-ne-panic x body _ refl
