-- ===== src/Protocol/Datagram/Codec.antt =====
-- Theorems on `encode_udp_datagram` and `decode_udp_datagram`.
use zuicity.Prelude.{
  ◌+◌, ◌≤◌, ◌<◌, ◌≡◌, ◌≢◌, ◌⊎◌, inl, inr, Bool-cases, ◌*◌, refl, sym, ◌∙◌, [], ◌∷◌, ◌++◌,
  append_assoc, arith, length, take, drop, get_or, drop-append, take-append, length-append,
  length-take, take-append-drop, ltb, Outcome, ok, err, panic,
}
use zuicity.Prelude.Bytes.{Bytes, AreBytes, to_be_u16, drop-AreBytes, to_be_u16-from_be_u16}
use zuicity.Protocol.Defs.{
  ProtocolError, domain_too_long, udp_payload_too_long, udp, ProxyAddress, ipv4, ipv6, domain,
  ProxyHeader, runtime_metadata_len,
}
use zuicity.Protocol.Metadata.{Metadata, encode_runtime_metadata, decode_runtime_metadata}
use zuicity.Protocol.Metadata.RoundTrip.{
  Fits, metadata_wire, encode_runtime_metadata-wire, length-metadata_wire,
  decode_runtime_metadata-wire,
}
use zuicity.Protocol.Metadata.Canonical.{
  decode_runtime_metadata-Reads, decode_runtime_metadata-ne-panic, decode_runtime_metadata-consumed,
}
use zuicity.Protocol.Header.{encode_target_to}
use zuicity.Protocol.Header.Codec.{IsHeader}
use zuicity.Protocol.Datagram.{encode_udp_datagram, decode_udp_datagram}

abbrev pub payload_wire : Bytes → Bytes
payload_wire payload = to_be_u16 (length payload) ++ payload

abbrev pub datagram_wire : ProxyHeader → Bytes → Bytes
datagram_wire h payload = metadata_wire h.address h.port ++ payload_wire payload

pub encode_udp_datagram-wire :
    (h : ProxyHeader) (payload dst : Bytes)
    → Fits h.address
    → length payload ≤ 65535
    → encode_udp_datagram h payload dst ≡ (ok tt, dst ++ datagram_wire h payload)
unfolding encode_udp_datagram encode_target_to
encode_udp_datagram-wire h payload dst f k = ground (
  arith,
  encode_runtime_metadata-wire h.address h.port dst f,
  append_assoc dst (metadata_wire h.address h.port) (payload_wire payload),
)

pub decode_udp_datagram-wire :
    (h : ProxyHeader) (payload rest : Bytes)
    → IsHeader h
    → h.network ≡ udp
    → length payload ≤ 65535
    → decode_udp_datagram (metadata_wire h.address h.port ++ (payload_wire payload ++ rest))
      ≡ ok (h, payload, rest)
unfolding decode_udp_datagram
decode_udp_datagram-wire h payload rest v u k = ground (
  arith,
  decode_runtime_metadata-wire h.address h.port (payload_wire payload ++ rest) v.address v.port,
  length-metadata_wire h.address h.port v.address,
  length-append (metadata_wire h.address h.port) (payload_wire payload ++ rest),
  length-append payload rest,
  drop-append (runtime_metadata_len h.address) (metadata_wire h.address h.port)
      (payload_wire payload ++ rest),
  take-append (length payload) payload rest,
  drop-append (length payload) payload rest,
)

-- A UDP frame that fits is appended to the buffer, and the decoder returns its header, its payload
-- and exactly the bytes that follow it.
pub decode-encode_udp_datagram :
    (h : ProxyHeader) (payload dst rest : Bytes)
    → IsHeader h
    → h.network ≡ udp
    → Fits h.address
    → length payload ≤ 65535
    → (wire : Bytes) × (encode_udp_datagram h payload dst ≡ (ok tt, dst ++ wire))
      × (decode_udp_datagram (wire ++ rest) ≡ ok (h, payload, rest))
decode-encode_udp_datagram h payload dst rest v u f k = (
  datagram_wire h payload,
  encode_udp_datagram-wire h payload dst f k,
  rw (append_assoc (metadata_wire h.address h.port) (payload_wire payload) rest)
      (decode_udp_datagram-wire h payload rest v u k),
)

abbrev pub Refuses : ProxyAddress → Bytes → ProtocolError → Type 0
Refuses address payload e =
    (65535 < length payload) × (e ≡ udp_payload_too_long (length payload))
    ⊎ ((name : Bytes) × (address ≡ domain name)
        × (255 < length name)
        × (e ≡ domain_too_long (length name)))

encode_udp_datagram-refused :
    (h : ProxyHeader) (a : ProxyAddress) (payload dst out : Bytes) (e : ProtocolError)
    → h.address ≡ a
    → encode_udp_datagram h payload dst ≡ (err e, out)
    → (out ≡ dst) × Refuses a payload e
unfolding encode_udp_datagram encode_target_to encode_runtime_metadata
encode_udp_datagram-refused h (domain name) payload dst out e q p =
    elim (Bool-cases (ltb 65535 (length payload))) [
      | inl long ↦ (ground arith, inl (ground arith))
      | inr short ↦ (ground arith, inr (name, refl, ground arith, ground arith))
    ]
encode_udp_datagram-refused h (ipv4 octets) payload dst out e q p =
    (ground arith, inl (ground arith))
encode_udp_datagram-refused h (ipv6 octets) payload dst out e q p =
    (ground arith, inl (ground arith))

-- A refused frame leaves the buffer as it was, and the error names the length that does not fit:
-- the payload's, or the domain's.
pub encode_udp_datagram-atomic :
    (h : ProxyHeader) (payload dst out : Bytes) (e : ProtocolError)
    → encode_udp_datagram h payload dst ≡ (err e, out)
    → (out ≡ dst) × Refuses h.address payload e
encode_udp_datagram-atomic h payload dst out e p =
    encode_udp_datagram-refused h h.address payload dst out e refl p

-- A length field, as many bytes as it says, and the rest.
payload_split :
    (body : Bytes)
    → AreBytes body
    → 2 + (get_or body 0 0 * 256 + get_or body 1 0) ≤ length body
    → let n = get_or body 0 0 * 256 + get_or body 1 0 in
      (body ≡ payload_wire (take n (drop 2 body)) ++ drop (2 + n) body)
      × (length (take n (drop 2 body)) ≡ n)
      × (n ≤ 65535)
payload_split [] v k = absurd (omega arith)
payload_split (hi ∷ []) v k = absurd (omega arith)
payload_split (hi ∷ lo ∷ r) v k = ground (
  arith,
  length-take (hi * 256 + lo) r,
  take-append-drop (hi * 256 + lo) r,
  to_be_u16-from_be_u16 hi lo v.0 v.1.0,
)

pub decode_udp_datagram-parts :
    (input : Bytes) (h : ProxyHeader) (payload rest : Bytes) (m : Outcome ProtocolError Metadata)
    → AreBytes input
    → decode_runtime_metadata input ≡ m
    → decode_udp_datagram input ≡ ok (h, payload, rest)
    → IsHeader h
      × (h.network ≡ udp)
      × Fits h.address
      × (length payload ≤ 65535)
      × (input ≡ metadata_wire h.address h.port ++ (payload_wire payload ++ rest))
unfolding decode_udp_datagram
decode_udp_datagram-parts input h payload rest (ok m) v q e = ground (
  arith,
  decode_runtime_metadata-Reads input m v q,
  payload_split (drop m.2 input) (drop-AreBytes m.2 input v),
)
decode_udp_datagram-parts input h payload rest (err _) v q e = ground arith
decode_udp_datagram-parts input h payload rest panic v q e = ground arith

-- Whatever the decoder accepts is the encoding of the header and payload it returns, followed by
-- the bytes it returns.
pub decode_udp_datagram-IsDecoded :
    (input : Bytes) (h : ProxyHeader) (payload rest : Bytes)
    → AreBytes input
    → decode_udp_datagram input ≡ ok (h, payload, rest)
    → (wire : Bytes) × (encode_udp_datagram h payload [] ≡ (ok tt, wire))
      × (input ≡ wire ++ rest)
      × (h.network ≡ udp)
decode_udp_datagram-IsDecoded input h payload rest v e =
    let d = decode_udp_datagram-parts input h payload rest _ v refl e in
    (
      datagram_wire h payload,
      encode_udp_datagram-wire h payload [] d.2 d.3,
      d.4 ∙ sym (append_assoc (metadata_wire h.address h.port) (payload_wire payload) rest),
      d.1,
    )

decode_udp_datagram_outcome-ne-panic :
    (input : Bytes) (m : Outcome ProtocolError Metadata)
    → decode_runtime_metadata input ≡ m
    → decode_udp_datagram input ≢ panic
unfolding decode_udp_datagram
decode_udp_datagram_outcome-ne-panic input (ok m) q =
    ground (arith, decode_runtime_metadata-consumed input m q)
decode_udp_datagram_outcome-ne-panic input (err e) q = ground arith
decode_udp_datagram_outcome-ne-panic input panic q =
    absurd (decode_runtime_metadata-ne-panic input q)

-- No input makes the frame decoder index or slice out of range.
pub decode_udp_datagram-ne-panic : (input : Bytes) → decode_udp_datagram input ≢ panic
decode_udp_datagram-ne-panic input = decode_udp_datagram_outcome-ne-panic input _ refl
