-- ===== src/Transport/Tuic/Target.antt =====
-- crates/zuicity-transport/src/lib.rs: `encode_tuic_target`, `tuic_target_encoded_len` and
-- `decode_tuic_udp_target`.
use zuicity.Prelude.{
  ℕ, ◌+◌, ◌-◌, List, [], ◌∷◌, ◌++◌, Bool, ◌==◌, ltb, if◌then◌else◌, length, get_or, not, Outcome,
  ok, err, ◌>>=◌,
}
use zuicity.Prelude.Bytes.{Bytes, index, slice, from_be_u16, to_be_u16}
use zuicity.Transport.Defs.{
  v4, v6, SocketAddr, OwnedProxyAddress, ipv4, ipv6, domain, OwnedProxyHeader, TransportError,
  tuic_proxy, connect, packet, invalid_utf8, no_usable_udp_target, TuicMessage, domain_exceeds_255,
  missing_address_type, truncated_ipv4_address, truncated_ipv6_address, truncated_domain_length,
  truncated_domain_address, address_type_none_not_valid, unsupported_address_type,
}

abbrev pub tuic_addr_domain : ℕ
tuic_addr_domain = 0

abbrev pub tuic_addr_ipv4 : ℕ
tuic_addr_ipv4 = 1

abbrev pub tuic_addr_ipv6 : ℕ
tuic_addr_ipv6 = 2

abbrev pub tuic_addr_none : ℕ
tuic_addr_none = 0xff

-- `tuic_packet_error`
abbrev pub packet_error {ℓ} : {A : Type ℓ} → TuicMessage → Outcome TransportError A
packet_error m = err (tuic_proxy packet m)

-- The buffer that the call leaves, with its outcome.
put_target : OwnedProxyAddress → ℕ → Bytes → Outcome TransportError (Unit {0}) × Bytes
put_target (ipv4 octets) port output =
    (ok tt, output ++ (tuic_addr_ipv4 ∷ (octets ++ to_be_u16 port)))
put_target (ipv6 octets) port output =
    (ok tt, output ++ (tuic_addr_ipv6 ∷ (octets ++ to_be_u16 port)))
put_target (domain name) port output =
    if ltb 255 (length name)
    then (err (tuic_proxy connect domain_exceeds_255), output)
    else (ok tt, output ++ (tuic_addr_domain ∷ length name ∷ (name ++ to_be_u16 port)))

unfoldable pub encode_tuic_target :
    OwnedProxyHeader → Bytes → Outcome TransportError (Unit {0}) × Bytes
unfolding put_target
encode_tuic_target h output = put_target h.address h.port output

target_len : OwnedProxyAddress → Outcome TransportError ℕ
target_len (ipv4 _) = ok (1 + 4 + 2)
target_len (ipv6 _) = ok (1 + 16 + 2)
target_len (domain name) =
    if ltb 255 (length name) then packet_error domain_exceeds_255 else ok (1 + 1 + length name + 2)

unfoldable pub tuic_target_encoded_len : OwnedProxyHeader → Outcome TransportError ℕ
unfolding target_len
tuic_target_encoded_len h = target_len h.address

-- The standard library: `str::from_utf8` accepts the bytes, and `to_socket_addrs` on a domain and
-- a port.
pub record Resolver : Type 0 where
  pub valid_utf8 : Bytes → Bool
  pub to_socket_addrs : Bytes → ℕ → Outcome TransportError (List SocketAddr)

-- `datagram.get(i).ok_or_else(…)`
get_or_error : Bytes → ℕ → TuicMessage → Outcome TransportError ℕ
get_or_error datagram i m =
    if ltb i (length datagram) then ok (get_or datagram i 0) else packet_error m

-- `.next().ok_or(NoUsableUdpTarget)`
first_target : List SocketAddr → Outcome TransportError SocketAddr
first_target [] = err no_usable_udp_target
first_target (t ∷ _) = ok t

unfoldable pub decode_target_ipv4 : Bytes → ℕ → Outcome TransportError (SocketAddr × ℕ)
unfolding index
decode_target_ipv4 datagram offset =
    let end = offset + 1 + 4 + 2 in
    if ltb (length datagram) end then packet_error truncated_ipv4_address else do
      a ← index datagram (offset + 1)
      b ← index datagram (offset + 2)
      c ← index datagram (offset + 3)
      d ← index datagram (offset + 4)
      hi ← index datagram (offset + 5)
      lo ← index datagram (offset + 6)
      ok (record { ip = v4 (a ∷ b ∷ c ∷ d ∷ []); port = from_be_u16 hi lo }, end)

unfoldable pub decode_target_ipv6 : Bytes → ℕ → Outcome TransportError (SocketAddr × ℕ)
unfolding index slice
decode_target_ipv6 datagram offset =
    let end = offset + 1 + 16 + 2 in
    if ltb (length datagram) end then packet_error truncated_ipv6_address else do
      raw ← slice datagram (offset + 1) (offset + 17)
      hi ← index datagram (offset + 17)
      lo ← index datagram (offset + 18)
      ok (record { ip = v6 raw; port = from_be_u16 hi lo }, end)

module _ (net : Resolver) where
  unfoldable pub decode_target_domain : Bytes → ℕ → Outcome TransportError (SocketAddr × ℕ)
  unfolding index slice get_or_error first_target
  decode_target_domain datagram offset = do
    len ← get_or_error datagram (offset + 1) truncated_domain_length
    let end = offset + 1 + 1 + len + 2
    if ltb (length datagram) end then packet_error truncated_domain_address else do
      name ← slice datagram (offset + 2) (offset + 2 + len)
      if not (net.valid_utf8 name) then err invalid_utf8 else do
        hi ← index datagram (end - 2)
        lo ← index datagram (end - 1)
        found ← net.to_socket_addrs name (from_be_u16 hi lo)
        target ← first_target found
        ok (target, end)

  unfoldable pub decode_tuic_udp_target : Bytes → ℕ → Outcome TransportError (SocketAddr × ℕ)
  unfolding get_or_error
  decode_tuic_udp_target datagram offset = do
    address_type ← get_or_error datagram offset missing_address_type
    if address_type == tuic_addr_ipv4
        then decode_target_ipv4 datagram offset
        else if address_type == tuic_addr_ipv6
        then decode_target_ipv6 datagram offset
        else if address_type == tuic_addr_domain
        then decode_target_domain datagram offset
        else if address_type == tuic_addr_none
        then packet_error address_type_none_not_valid
        else packet_error (unsupported_address_type address_type)
