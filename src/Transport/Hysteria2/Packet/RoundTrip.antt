-- ===== src/Transport/Hysteria2/Packet/RoundTrip.antt =====
-- `encode_hysteria2_udp_packet` and then `decode_hysteria2_udp_packet`.
use zuicity.Prelude.{
  ℕ, ◌+◌, ◌/◌, ◌%◌, ◌≤◌, ◌<◌, ◌≡◌, sym, ap, ◌∙◌, ◌++◌, append_assoc, Bool, true, arith, length,
  take-append, drop-append, drop-drop, length-append, ok,
}
use zuicity.Prelude.Bytes.{Bytes}
use zuicity.Transport.Hysteria2.{write_hysteria2_varint, read_hysteria2_datagram_varint}
use zuicity.Transport.Hysteria2.Varint.{write_hysteria2_varint-Reads}
use zuicity.Transport.Hysteria2.Packet.{
  hysteria2_max_udp_address_len, hysteria2_max_udp_size, from_be_u32, fixed_part, finish_packet,
  encode_hysteria2_udp_packet, decode_address_and_payload, decode_hysteria2_udp_packet,
}

module _ (valid_utf8 : Bytes → Bool) where
  -- The tail of the decoder, at an address that stands behind some bytes.
  address-decoded :
      (before addr payload : Bytes)
      → 0 < length addr
      → length addr ≤ hysteria2_max_udp_address_len
      → 0 < length payload
      → valid_utf8 addr ≡ true
      → decode_address_and_payload valid_utf8
          (before ++ (addr ++ payload))
          (length addr, length before)
        ≡ ok (record { addr = addr; payload = payload })
  unfolding decode_address_and_payload
  address-decoded before addr payload h k p v = ground (
    arith,
    v,
    length-append before (addr ++ payload),
    length-append addr payload,
    drop-append (length before) before (addr ++ payload),
    take-append (length addr) addr payload,
    drop-append (length addr) addr payload,
    drop-drop (length before) (length addr) (before ++ (addr ++ payload)),
  )

  -- The head of the decoder, on a whole fixed part of one fragment.
  fixed-decoded :
      (session_id packet_id : ℕ) (tail : Bytes) (address : ℕ × ℕ)
      → session_id < 4294967296
      → read_hysteria2_datagram_varint (fixed_part session_id packet_id 0 1 ++ tail) 8 ≡ ok address
      → decode_hysteria2_udp_packet valid_utf8
          (fixed_part session_id packet_id 0 1 ++ tail)
          session_id
        ≡ decode_address_and_payload valid_utf8
            (fixed_part session_id packet_id 0 1 ++ tail)
            address
  unfolding decode_hysteria2_udp_packet
  fixed-decoded session_id packet_id tail address h e =
      let n : from_be_u32 (session_id / 256 / 256 / 256 % 256) (session_id / 256 / 256 % 256)
            (session_id / 256 % 256) (session_id % 256)
          ≡ session_id =
        omega arith in
      ground (arith, e, n)

encode-finished :
    (session_id packet_id : ℕ) (addr payload wire : Bytes)
    → 0 < length addr
    → length addr ≤ hysteria2_max_udp_address_len
    → 16 + length addr + length payload ≤ hysteria2_max_udp_size
    → length wire ≤ 8
    → write_hysteria2_varint (length addr) (fixed_part session_id packet_id 0 1)
      ≡ (ok tt, fixed_part session_id packet_id 0 1 ++ wire)
    → encode_hysteria2_udp_packet session_id packet_id 0 1 addr payload
      ≡ ok (((fixed_part session_id packet_id 0 1 ++ wire) ++ addr) ++ payload)
unfolding encode_hysteria2_udp_packet finish_packet
encode-finished session_id packet_id addr payload wire h k s w e = ground (
  arith,
  e,
  length-append ((fixed_part session_id packet_id 0 1 ++ wire) ++ addr) payload,
  length-append (fixed_part session_id packet_id 0 1 ++ wire) addr,
  length-append (fixed_part session_id packet_id 0 1) wire,
)

-- An unfragmented packet with a 32-bit session id, a UTF-8 address of 1 to 2048 bytes and a payload
-- of at least one byte, at most 4080 bytes together, is encoded, and decoded under the same session
-- id to the same address and payload.
pub decode-encode_hysteria2_udp_packet :
    (valid_utf8 : Bytes → Bool) (session_id packet_id : ℕ) (addr payload : Bytes)
    → session_id < 4294967296
    → 0 < length addr
    → length addr ≤ hysteria2_max_udp_address_len
    → 0 < length payload
    → 16 + length addr + length payload ≤ hysteria2_max_udp_size
    → valid_utf8 addr ≡ true
    → (packet : Bytes) × (encode_hysteria2_udp_packet session_id packet_id 0 1 addr payload
        ≡ ok packet)
      × (decode_hysteria2_udp_packet valid_utf8 packet session_id
          ≡ ok (record { addr = addr; payload = payload }))
decode-encode_hysteria2_udp_packet valid_utf8 session_id packet_id addr payload hs ha ka hp size v =
    let fixed = fixed_part session_id packet_id 0 1 in
    let (wire, written, short, reads) =
      write_hysteria2_varint-Reads (length addr) fixed (omega arith) in
    let shape : ((fixed ++ wire) ++ addr) ++ payload ≡ fixed ++ (wire ++ (addr ++ payload)) =
      append_assoc (fixed ++ wire) addr payload ∙ append_assoc fixed wire (addr ++ payload) in
    (
      ((fixed ++ wire) ++ addr) ++ payload,
      encode-finished session_id packet_id addr payload wire ha ka size short written,
      ap (λ d. decode_hysteria2_udp_packet valid_utf8 d session_id) shape
          ∙ fixed-decoded valid_utf8 session_id packet_id (wire ++ (addr ++ payload))
              (length addr, 8 + length wire) hs (reads fixed (addr ++ payload))
          ∙ ap
              (λ n.
                decode_address_and_payload valid_utf8 (fixed ++ (wire ++ (addr ++ payload)))
                  (length addr, n))
              (sym (length-append fixed wire))
          ∙ ap (λ d. decode_address_and_payload valid_utf8 d (length addr, length (fixed ++ wire)))
              (sym (append_assoc fixed wire (addr ++ payload)))
          ∙ address-decoded valid_utf8 (fixed ++ wire) addr payload ha ka hp v,
    )
