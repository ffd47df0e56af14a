-- ===== src/Transport/Trojan/Packet.antt =====
-- A Trojan UDP packet from one side to the other.
use zuicity.Prelude.{
  ℕ, ◌/◌, ◌%◌, ◌≤◌, ◌≡◌, refl, sym, ap, ◌∙◌, [], ◌∷◌, ◌++◌, append_assoc, Bool, true, false, not,
  ltb, if◌then◌else◌, arith, length, Outcome, ok, err,
}
use zuicity.Prelude.Bytes.{Bytes, from_be_u16, to_be_u16}
use zuicity.Session.{Wire, Session, ◌>>=◌, after, return, fail, pure, read_exact}
use zuicity.Session.Laws.{before, read_exact-before}
use zuicity.Protocol.{IsPort}
use zuicity.Transport.Defs.{
  IpAddr, v4, v6, SocketAddr, OwnedProxyAddress, ipv4, ipv6, domain, OwnedProxyHeader,
  TransportError, invalid_utf8, trojan_proxy, exceeds_receive_buffer,
}
use zuicity.Transport.Tuic.Target.{Resolver}
use zuicity.Transport.Trojan.{
  trojan_short, crlf, encode_trojan_metadata, write_trojan_udp_packet_frame, read_trojan_udp_port,
  read_trojan_ip, first_found, read_trojan_udp_metadata, read_trojan_payload,
  read_trojan_udp_packet_frame,
}

abbrev metadata_bytes : OwnedProxyAddress → ℕ → Bytes
metadata_bytes (ipv4 octets) port = 1 ∷ (octets ++ to_be_u16 port)
metadata_bytes (ipv6 octets) port = 4 ∷ (octets ++ to_be_u16 port)
metadata_bytes (domain name) port = 3 ∷ length name ∷ (name ++ to_be_u16 port)

read_port-wire :
    (port : ℕ) (w : Wire)
    → IsPort port
    → read_trojan_udp_port (before (to_be_u16 port) w) ≡ (ok port, w)
unfolding read_trojan_udp_port
read_port-wire port w p =
    ap (λ (n : ℕ). let o : Outcome TransportError ℕ × Wire = (ok n, w) in o) (omega arith)

read_trojan_ip-wire :
    (n : ℕ) (make : Bytes → IpAddr) (octets : Bytes) (port : ℕ) (w : Wire)
    → length octets ≡ n
    → IsPort port
    → read_trojan_ip n make (before (octets ++ to_be_u16 port) w)
      ≡ (ok (record { ip = make octets; port = port }), w)
read_trojan_ip-wire n make octets port w k p =
    ap (λ (b : Bytes). read_trojan_ip n make (record w { input = b }))
      (append_assoc octets (to_be_u16 port) w.input)
    ∙ ap
        (λ r. after r (λ raw.
          λ u. after (read_trojan_udp_port u) (λ q. return (record { ip = make raw; port = q }))))
        (read_exact-before trojan_short n octets (before (to_be_u16 port) w) k)
    ∙ ap (λ r. after r (λ q. return (record { ip = make octets; port = q })))
        (read_port-wire port w p)

module _ (net : Resolver) where
  -- The address that the reader reports: a domain is resolved.
  abbrev pub peer_of : OwnedProxyAddress → ℕ → Outcome TransportError SocketAddr
  peer_of (ipv4 octets) port = ok (record { ip = v4 octets; port = port })
  peer_of (ipv6 octets) port = ok (record { ip = v6 octets; port = port })
  peer_of (domain name) port =
      if not (net.valid_utf8 name)
      then err invalid_utf8
      else first_found (net.to_socket_addrs name port)

  named : Bytes → Session TransportError SocketAddr
  named name =
      if not (net.valid_utf8 name)
      then fail invalid_utf8
      else (read_trojan_udp_port >>= λ port. pure (first_found (net.to_socket_addrs name port)))

  named-wire :
      (name : Bytes) (port : ℕ) (peer : SocketAddr) (w : Wire) (b : Bool)
      → IsPort port
      → net.valid_utf8 name ≡ b
      → peer_of (domain name) port ≡ ok peer
      → named name (before (to_be_u16 port) w) ≡ (ok peer, w)
  unfolding named
  named-wire name port peer w true p u q =
      ap
        (λ b.
          (if not b
              then fail invalid_utf8
              else (read_trojan_udp_port >>= λ port.
                  pure (first_found (net.to_socket_addrs name port))))
            (before (to_be_u16 port) w))
        u
      ∙ ap (λ r. after r (λ port. pure (first_found (net.to_socket_addrs name port))))
          (read_port-wire port w p)
      ∙ ap
          (λ (o : Outcome TransportError SocketAddr).
            let r : Outcome TransportError SocketAddr × Wire = (o, w) in r)
          (sym (
              ap
                (λ b.
                  let o : Outcome TransportError SocketAddr =
                    if not b
                    then err invalid_utf8
                    else first_found (net.to_socket_addrs name port) in
                  o)
                u)
            ∙ q)
  named-wire name port peer w false p u q = absurd (ground (arith, u, q))

  -- What the types guarantee, and a domain with a one-byte length.
  abbrev pub HasLength : OwnedProxyAddress → Type 0
  HasLength (ipv4 octets) = length octets ≡ 4
  HasLength (ipv6 octets) = length octets ≡ 16
  HasLength (domain name) = length name ≤ 255

  metadata-wire :
      (a : OwnedProxyAddress) (port : ℕ) (peer : SocketAddr) (w : Wire)
      → HasLength a
      → IsPort port
      → peer_of a port ≡ ok peer
      → read_trojan_udp_metadata net (before (metadata_bytes a port) w) ≡ (ok peer, w)
  unfolding read_trojan_udp_metadata named
  metadata-wire (ipv4 octets) port peer w k p q =
      read_trojan_ip-wire 4 v4 octets port w k p
      ∙ ap
          (λ (o : Outcome TransportError SocketAddr).
            let r : Outcome TransportError SocketAddr × Wire = (o, w) in r)
          q
  metadata-wire (ipv6 octets) port peer w k p q =
      read_trojan_ip-wire 16 v6 octets port w k p
      ∙ ap
          (λ (o : Outcome TransportError SocketAddr).
            let r : Outcome TransportError SocketAddr × Wire = (o, w) in r)
          q
  metadata-wire (domain name) port peer w k p q =
      ap (λ (b : Bytes). (read_exact trojan_short (length name) >>= named) (record w { input = b }))
        (append_assoc name (to_be_u16 port) w.input)
      ∙ ap (λ r. after r named)
          (read_exact-before trojan_short (length name) name (before (to_be_u16 port) w) refl)
      ∙ named-wire name port peer w (net.valid_utf8 name) p refl q

  payload_bytes : Bytes → Bytes
  payload_bytes payload = to_be_u16 (length payload) ++ (crlf ++ payload)

  payload-wire :
      (capacity : ℕ) (peer : SocketAddr) (payload : Bytes) (w : Wire)
      → length payload ≤ 65535
      → length payload ≤ capacity
      → read_trojan_payload net capacity peer (before (payload_bytes payload) w)
        ≡ (ok (peer, payload), w)
  unfolding payload_bytes
  payload-wire capacity peer payload w k l =
      ap
        (λ (n : ℕ).
          (if ltb capacity n
              then fail (trojan_proxy exceeds_receive_buffer)
              else (read_exact trojan_short n >>= λ p. return (peer, p)))
            (before payload w))
        (back (length payload) k)
      ∙ ap
          (λ b.
            (if b
                then fail (trojan_proxy exceeds_receive_buffer)
                else (read_exact trojan_short (length payload) >>= λ p. return (peer, p)))
              (before payload w))
          (fits (length payload) l)
      ∙ ap (λ r. after r (λ p. return (peer, p)))
          (read_exact-before trojan_short (length payload) payload w refl)
    where
      back : (n : ℕ) → n ≤ 65535 → from_be_u16 (n / 256 % 256) (n % 256) ≡ n
      back n k = omega arith

      fits : (n : ℕ) → n ≤ capacity → ltb capacity n ≡ false
      fits n l = ground (arith, l)

  encode_metadata-wire :
      (h : OwnedProxyHeader) (a : OwnedProxyAddress)
      → h.address ≡ a
      → HasLength a
      → encode_trojan_metadata h [] ≡ (ok tt, metadata_bytes a h.port)
  unfolding encode_trojan_metadata
  encode_metadata-wire h (ipv4 octets) q k = rw q refl
  encode_metadata-wire h (ipv6 octets) q k = rw q refl
  encode_metadata-wire h (domain name) q k = rw q (ground (arith, k))

  -- A UDP packet that fits its length field and the receiver's buffer is written on one side and
  -- read on the other, with the address that its target stands for and nothing of what follows.
  pub read-write_trojan_udp_packet_frame :
      (h : OwnedProxyHeader) (payload : Bytes) (capacity : ℕ) (peer : SocketAddr)
      (sender receiver : Wire)
      → HasLength h.address
      → IsPort h.port
      → peer_of h.address h.port ≡ ok peer
      → length payload ≤ 65535
      → length payload ≤ capacity
      → (sent : Bytes) × (write_trojan_udp_packet_frame h payload sender
          ≡ (ok tt, record sender { output = sender.output ++ sent }))
        × (read_trojan_udp_packet_frame net capacity (before sent receiver)
            ≡ (ok (peer, payload), receiver))
  unfolding write_trojan_udp_packet_frame read_trojan_udp_packet_frame payload_bytes
  read-write_trojan_udp_packet_frame h payload capacity peer sender receiver v p q k l = (
    metadata_bytes h.address h.port ++ payload_bytes payload,
    ground (arith, k, encode_metadata-wire h h.address refl v),
    ap (λ (b : Bytes). read_trojan_udp_packet_frame net capacity (record receiver { input = b }))
          (append_assoc (metadata_bytes h.address h.port) (payload_bytes payload) receiver.input)
        ∙ ap (λ r. after r (read_trojan_payload net capacity))
            (metadata-wire h.address h.port peer (before (payload_bytes payload) receiver) v p q)
        ∙ payload-wire capacity peer payload receiver k l,
  )
