-- ===== src/Transport/Vless/Frames.antt =====
-- crates/zuicity-transport/src/lib.rs: the VLESS request header and UDP frames. A read of a payload
-- returns the bytes that it puts into the buffer.
use zuicity.Prelude.{
  ℕ, ◌/◌, ◌%◌, ◌≤◌, ◌≡◌, refl, ap, ◌∙◌, [], ◌∷◌, ◌++◌, append_assoc, false, ltb, if◌then◌else◌,
  arith, length, get_or, Outcome, ok, err, panic,
}
use zuicity.Prelude.Bytes.{Bytes, from_be_u16, to_be_u16}
use zuicity.Session.{Closing, Wire, Session, ◌>>=◌, ◌>>◌, fail, pure, read_exact, write_all}
use zuicity.Session.Laws.{before, read_exact-before}
use zuicity.Protocol.{Network, tcp, udp}
use zuicity.Transport.Defs.{
  OwnedProxyAddress, ipv4, ipv6, domain, OwnedProxyHeader, TransportError, io, vless_proxy,
  domain_exceeds_vless, payload_exceeds_vless, exceeds_vless_buffer,
}

-- `?` on the error of a short read, an `std::io::Error`.
abbrev pub vless_short : Closing → ℕ → TransportError
vless_short _ _ = io

abbrev pub vless_network_byte : Network → ℕ
vless_network_byte tcp = 1
vless_network_byte udp = 2

-- The buffer that the call leaves, with its outcome.
abbrev pub put_vless_address : OwnedProxyAddress → Bytes → Outcome TransportError (Unit {0}) × Bytes
put_vless_address (ipv4 octets) request = (ok tt, request ++ (1 ∷ octets))
put_vless_address (domain name) request =
    if ltb 255 (length name)
    then (err (vless_proxy domain_exceeds_vless), request)
    else (ok tt, request ++ (2 ∷ length name ∷ name))
put_vless_address (ipv6 octets) request = (ok tt, request ++ (3 ∷ octets))

unfoldable pub encode_vless_target_metadata :
    OwnedProxyHeader → Bytes → Outcome TransportError (Unit {0}) × Bytes
encode_vless_target_metadata h request = put_vless_address h.address (request ++ to_be_u16 h.port)

-- `write_all` of a buffer that was encoded.
abbrev pub write_request :
    Outcome TransportError (Unit {0}) × Bytes → Session TransportError (Unit {0})
write_request (ok _, request) = write_all request
write_request (err e, request) = fail e
write_request (panic, request) = pure panic

-- `key`: the 16 bytes of the link's identifier.
unfoldable pub write_vless_request_header :
    OwnedProxyHeader → Bytes → Session TransportError (Unit {0})
write_vless_request_header h key =
    write_request
      (encode_vless_target_metadata h (0 ∷ (key ++ (0 ∷ vless_network_byte h.network ∷ []))))

unfoldable pub write_vless_udp_packet_frame : Bytes → Session TransportError (Unit {0})
write_vless_udp_packet_frame payload =
    if ltb 65535 (length payload)
    then fail (vless_proxy payload_exceeds_vless)
    else do write_all (to_be_u16 (length payload)); write_all payload

-- For a buffer of `capacity` bytes.
unfoldable pub read_vless_udp_packet_frame : ℕ → Session TransportError Bytes
read_vless_udp_packet_frame capacity = do
  length ← read_exact vless_short 2
  let n = from_be_u16 (get_or length 0 0) (get_or length 1 0)
  if ltb capacity n then fail (vless_proxy exceeds_vless_buffer) else read_exact vless_short n

-- A UDP packet that fits its length field and the receiver's buffer is read as it was written, and
-- nothing of what follows.
pub read-write_vless_udp_packet_frame :
    (payload : Bytes) (capacity : ℕ) (sender receiver : Wire)
    → length payload ≤ 65535
    → length payload ≤ capacity
    → (sent : Bytes) × (write_vless_udp_packet_frame payload sender
        ≡ (ok tt, record sender { output = sender.output ++ sent }))
      × (read_vless_udp_packet_frame capacity (before sent receiver) ≡ (ok payload, receiver))
unfolding write_vless_udp_packet_frame read_vless_udp_packet_frame
read-write_vless_udp_packet_frame payload capacity sender receiver k l = (
  to_be_u16 (length payload) ++ payload,
  ground (arith, k, append_assoc sender.output (to_be_u16 (length payload)) payload),
  ap
        (λ n.
          (if ltb capacity n
              then fail (vless_proxy exceeds_vless_buffer)
              else read_exact vless_short n)
            (before payload receiver))
        (back (length payload) k)
      ∙ ap
          (λ b.
            (if b
                then fail (vless_proxy exceeds_vless_buffer)
                else read_exact vless_short (length payload))
              (before payload receiver))
          (fits (length payload) l)
      ∙ read_exact-before vless_short (length payload) payload receiver refl,
)
  where
    back : (n : ℕ) → n ≤ 65535 → from_be_u16 (n / 256 % 256) (n % 256) ≡ n
    back n k = omega arith

    fits : (n : ℕ) → n ≤ capacity → ltb capacity n ≡ false
    fits n l = ground (arith, l)
