-- ===== src/Transport/Tuic/Connect.antt =====
-- crates/zuicity-transport/src/lib.rs: the TUIC connect request, `write_tuic_tcp_connect` and
-- `read_tuic_connect_header_prefix`. `valid_utf8` tells whether `String::from_utf8` of the standard
-- library accepts the bytes.
mod Tests
use zuicity.Prelude.{
  ℕ, ◌+◌, ◌≤◌, ◌≡◌, refl, sym, ap, ◌∙◌, [], ◌∷◌, ◌++◌, append_assoc, Bool, true, not, ◌==◌, ltb,
  if◌then◌else◌, arith, length, get_or, Outcome, ok, err, panic,
}
use zuicity.Prelude.Bytes.{Bytes, from_be_u16, to_be_u16}
use zuicity.Session.{Wire, Session, ◌>>=◌, after, return, fail, pure, read_exact, write_all}
use zuicity.Session.Laws.{before, read_exact-before}
use zuicity.Protocol.{tcp, IsPort}
use zuicity.Transport.Defs.{
  OwnedProxyAddress, ipv4, ipv6, domain, OwnedProxyHeader, TransportError, accept_tuic,
  unexpected_tuic_version, unsupported_tuic_command, unknown_tuic_address_type, domain_not_utf8,
}
use zuicity.Transport.Stream.{quic_short}
use zuicity.Transport.Tuic.Target.{
  encode_tuic_target, tuic_addr_domain, tuic_addr_ipv4, tuic_addr_ipv6,
}
use zuicity.Transport.Tuic.Fragment.{tuic_version_5}

abbrev pub tuic_command_connect : ℕ
tuic_command_connect = 1

-- `encode_tuic_target(…)?` and `write_all` of the buffer.
abbrev pub write_request :
    Outcome TransportError (Unit {0}) × Bytes → Session TransportError (Unit {0})
write_request (ok _, request) = write_all request
write_request (err e, request) = fail e
write_request (panic, request) = pure panic

unfoldable pub write_tuic_tcp_connect : OwnedProxyHeader → Session TransportError (Unit {0})
write_tuic_tcp_connect h =
    write_request (encode_tuic_target h (tuic_version_5 ∷ tuic_command_connect ∷ []))

-- The port, and the header with it.
abbrev pub read_connect_port : OwnedProxyAddress → Session TransportError (OwnedProxyHeader × Bytes)
read_connect_port address = do
  port ← read_exact quic_short 2
  return (
    record {
      network = tcp;
      address = address;
      port = from_be_u16 (get_or port 0 0) (get_or port 1 0);
    },
    [],
  )

abbrev pub read_connect_ip :
    ℕ → (Bytes → OwnedProxyAddress) → Session TransportError (OwnedProxyHeader × Bytes)
read_connect_ip n make = do rest ← read_exact quic_short n; read_connect_port (make rest)

module _ (valid_utf8 : Bytes → Bool) where
  abbrev pub read_connect_name : Bytes → Session TransportError (OwnedProxyHeader × Bytes)
  read_connect_name name =
      if not (valid_utf8 name)
      then fail (accept_tuic domain_not_utf8)
      else read_connect_port (domain name)

  abbrev pub read_connect_domain : Session TransportError (OwnedProxyHeader × Bytes)
  read_connect_domain = do
    len ← read_exact quic_short 1
    name ← read_exact quic_short (get_or len 0 0)
    read_connect_name name

  abbrev pub read_connect_address : ℕ → Session TransportError (OwnedProxyHeader × Bytes)
  read_connect_address addr_type =
      if addr_type == tuic_addr_ipv4
      then read_connect_ip 4 ipv4
      else if addr_type == tuic_addr_ipv6
      then read_connect_ip 16 ipv6
      else if addr_type == tuic_addr_domain
      then read_connect_domain
      else fail (accept_tuic (unknown_tuic_address_type addr_type))

  unfoldable pub read_tuic_connect_header_prefix : Session TransportError (OwnedProxyHeader × Bytes)
  read_tuic_connect_header_prefix = do
    command ← read_exact quic_short 2
    if not (get_or command 0 0 == tuic_version_5)
        then fail (accept_tuic (unexpected_tuic_version (get_or command 0 0)))
        else if not (get_or command 1 0 == tuic_command_connect)
        then fail (accept_tuic (unsupported_tuic_command (get_or command 1 0)))
        else do addr_type ← read_exact quic_short 1; read_connect_address (get_or addr_type 0 0)

-- The address that the request carries: one with a one-byte length where it is a domain, in UTF-8.
abbrev pub IsConnectable : (Bytes → Bool) → OwnedProxyAddress → Type 0
IsConnectable valid_utf8 (ipv4 octets) = length octets ≡ 4
IsConnectable valid_utf8 (ipv6 octets) = length octets ≡ 16
IsConnectable valid_utf8 (domain name) = (length name ≤ 255) × (valid_utf8 name ≡ true)

abbrev address_bytes : OwnedProxyAddress → ℕ → Bytes
address_bytes (ipv4 octets) port = 1 ∷ (octets ++ to_be_u16 port)
address_bytes (ipv6 octets) port = 2 ∷ (octets ++ to_be_u16 port)
address_bytes (domain name) port = 0 ∷ length name ∷ (name ++ to_be_u16 port)

read_connect_port-wire :
    (a : OwnedProxyAddress) (port : ℕ) (w : Wire)
    → IsPort port
    → read_connect_port a (before (to_be_u16 port) w)
      ≡ (ok (record { network = tcp; address = a; port = port }, []), w)
read_connect_port-wire a port w p =
    ap
      (λ (n : ℕ).
        let o : Outcome TransportError (OwnedProxyHeader × Bytes) × Wire =
          (ok (record { network = tcp; address = a; port = n }, []), w) in
        o)
      (omega arith)

-- The bytes of an address and its port, where what follows the address is read by `next`.
read_then_port :
    (n : ℕ) (name : Bytes) (a : OwnedProxyAddress) (port : ℕ) (w : Wire)
    (next : Bytes → Session TransportError (OwnedProxyHeader × Bytes))
    → length name ≡ n
    → IsPort port
    → ((u : Wire) → next name u ≡ read_connect_port a u)
    → (read_exact quic_short n >>= next) (before (name ++ to_be_u16 port) w)
      ≡ (ok (record { network = tcp; address = a; port = port }, []), w)
read_then_port n name a port w next k p f =
    ap (λ (b : Bytes). (read_exact quic_short n >>= next) (record w { input = b }))
      (append_assoc name (to_be_u16 port) w.input)
    ∙ ap (λ r. after r next) (read_exact-before quic_short n name (before (to_be_u16 port) w) k)
    ∙ f (before (to_be_u16 port) w)
    ∙ read_connect_port-wire a port w p

read_connect-wire :
    (valid_utf8 : Bytes → Bool) (a : OwnedProxyAddress) (port : ℕ) (w : Wire)
    → IsConnectable valid_utf8 a
    → IsPort port
    → read_tuic_connect_header_prefix valid_utf8 (before (5 ∷ 1 ∷ address_bytes a port) w)
      ≡ (ok (record { network = tcp; address = a; port = port }, []), w)
unfolding read_tuic_connect_header_prefix
read_connect-wire valid_utf8 (ipv4 octets) port w k p =
    read_then_port 4 octets (ipv4 octets) port w (λ rest. read_connect_port (ipv4 rest)) k p
      (λ u. refl)
read_connect-wire valid_utf8 (ipv6 octets) port w k p =
    read_then_port 16 octets (ipv6 octets) port w (λ rest. read_connect_port (ipv6 rest)) k p
      (λ u. refl)
read_connect-wire valid_utf8 (domain name) port w (k, v) p =
    read_then_port (length name) name (domain name) port w (read_connect_name valid_utf8) refl p
      (λ u.
        ap
          (λ b.
            (if not b then fail (accept_tuic domain_not_utf8) else read_connect_port (domain name))
              u)
          v)

write_connect-wire :
    (valid_utf8 : Bytes → Bool) (h : OwnedProxyHeader) (a : OwnedProxyAddress) (w : Wire)
    → h.address ≡ a
    → IsConnectable valid_utf8 a
    → write_tuic_tcp_connect h w
      ≡ (ok tt, record w { output = w.output ++ (5 ∷ 1 ∷ address_bytes a h.port) })
unfolding write_tuic_tcp_connect encode_tuic_target
write_connect-wire valid_utf8 h (ipv4 octets) w q k = rw q refl
write_connect-wire valid_utf8 h (ipv6 octets) w q k = rw q refl
write_connect-wire valid_utf8 h (domain name) w q k = rw q (ground (arith, k))

-- A TUIC connect request is read as the TCP header that it was written for, with nothing taken of
-- what follows: the address is an IP address, or a domain of at most 255 bytes that is UTF-8.
pub read-write_tuic_tcp_connect :
    (valid_utf8 : Bytes → Bool) (h : OwnedProxyHeader) (sender receiver : Wire)
    → h.network ≡ tcp
    → IsConnectable valid_utf8 h.address
    → IsPort h.port
    → (sent : Bytes) × (write_tuic_tcp_connect h sender
        ≡ (ok tt, record sender { output = sender.output ++ sent }))
      × (read_tuic_connect_header_prefix valid_utf8 (before sent receiver) ≡ (ok (h, []), receiver))
read-write_tuic_tcp_connect valid_utf8 h sender receiver t k p = (
  5 ∷ 1 ∷ address_bytes h.address h.port,
  write_connect-wire valid_utf8 h h.address sender refl k,
  read_connect-wire valid_utf8 h.address h.port receiver k p
      ∙ ap
          (λ n.
            let o : Outcome TransportError (OwnedProxyHeader × Bytes) × Wire =
              (ok (record { network = n; address = h.address; port = h.port }, []), receiver) in
            o)
          (sym t),
)
