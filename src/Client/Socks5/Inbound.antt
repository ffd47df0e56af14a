-- ===== src/Client/Socks5/Inbound.antt =====
-- What the SOCKS5 server of the client makes of a well-formed request for a target.
use zuicity.Prelude.{
  ℕ, ◌≤◌, ◌≡◌, refl, ap, ◌∙◌, [], ◌∷◌, ◌++◌, append_assoc, Bool, true, false, arith, length, not,
  ◌==◌, if◌then◌else◌, Outcome, ok,
}
use zuicity.Prelude.Bytes.{Bytes, to_be_u16}
use zuicity.Session.{Wire, Session, ◌>>=◌, after, return, fail, read_exact}
use zuicity.Session.Laws.{before, read_exact-before}
use zuicity.Protocol.{IsPort}
use zuicity.Transport.{IpAddr, v4, v6, OwnedProxyAddress}
use zuicity.Client.Defs.{ClientError, TcpForwardTarget, ip, domain, invalid_socks5_request}
use zuicity.Client.Socks5.{
  io_short, read_socks5_greeting, read_socks5_request_header, read_network_port,
  validate_socks5_command_and_address_type, read_socks5_ip, read_socks5_domain,
  read_socks5_tcp_target, read_socks5_connect_target,
}

-- The address that the dialer asks for, as the server names it.
abbrev pub target_of : OwnedProxyAddress → ℕ → TcpForwardTarget
target_of (OwnedProxyAddress.ipv4 octets) port = ip (record { ip = v4 octets; port = port })
target_of (OwnedProxyAddress.ipv6 octets) port = ip (record { ip = v6 octets; port = port })
target_of (OwnedProxyAddress.domain name) port = domain name port

-- The domain is not empty, has a one-byte length, and is UTF-8.
abbrev pub IsTarget : (Bytes → Bool) → OwnedProxyAddress → Type 0
IsTarget valid_utf8 (OwnedProxyAddress.ipv4 octets) = length octets ≡ 4
IsTarget valid_utf8 (OwnedProxyAddress.ipv6 octets) = length octets ≡ 16
IsTarget valid_utf8 (OwnedProxyAddress.domain name) =
    (1 ≤ length name) × (length name ≤ 255) × (valid_utf8 name ≡ true)

abbrev pub kind_of : OwnedProxyAddress → ℕ
kind_of (OwnedProxyAddress.ipv4 octets) = 1
kind_of (OwnedProxyAddress.ipv6 octets) = 4
kind_of (OwnedProxyAddress.domain name) = 3

-- What follows the address type.
abbrev pub target_body : OwnedProxyAddress → ℕ → Bytes
target_body (OwnedProxyAddress.ipv4 octets) port = octets ++ to_be_u16 port
target_body (OwnedProxyAddress.ipv6 octets) port = octets ++ to_be_u16 port
target_body (OwnedProxyAddress.domain name) port = length name ∷ (name ++ to_be_u16 port)

abbrev pub connect_request : OwnedProxyAddress → ℕ → Bytes
connect_request a port = 5 ∷ 1 ∷ 0 ∷ kind_of a ∷ target_body a port

abbrev pub written : Wire → Bytes → Wire
written w bytes = record w { output = w.output ++ bytes }

read_network_port-wire :
    (port : ℕ) (w : Wire)
    → IsPort port
    → read_network_port (before (to_be_u16 port) w) ≡ (ok port, w)
unfolding read_network_port
read_network_port-wire port w p =
    ap (λ (n : ℕ). let o : Outcome ClientError ℕ × Wire = (ok n, w) in o) (omega arith)

read_socks5_ip-wire :
    (n : ℕ) (make : Bytes → IpAddr) (octets : Bytes) (port : ℕ) (w : Wire)
    → length octets ≡ n
    → IsPort port
    → read_socks5_ip n make (before (octets ++ to_be_u16 port) w)
      ≡ (ok (ip (record { ip = make octets; port = port })), w)
read_socks5_ip-wire n make octets port w k p =
    ap (λ (b : Bytes). read_socks5_ip n make (record w { input = b }))
      (append_assoc octets (to_be_u16 port) w.input)
    ∙ ap
        (λ r. after r (λ addr. λ u.
          after (read_network_port u) (λ q. return (ip (record { ip = make addr; port = q })))))
        (read_exact-before io_short n octets (before (to_be_u16 port) w) k)
    ∙ ap (λ r. after r (λ q. return (ip (record { ip = make octets; port = q }))))
        (read_network_port-wire port w p)

module _ (valid_utf8 : Bytes → Bool) where
  abbrev named : Bytes → Session ClientError TcpForwardTarget
  named name =
      if not (valid_utf8 name)
      then fail invalid_socks5_request
      else (read_network_port >>= λ port. return (domain name port))

  named-wire :
      (name : Bytes) (port : ℕ) (w : Wire)
      → valid_utf8 name ≡ true
      → IsPort port
      → named name (before (to_be_u16 port) w) ≡ (ok (domain name port), w)
  named-wire name port w u p =
      ap
        (λ c.
          (if not c
              then fail invalid_socks5_request
              else (read_network_port >>= λ port. return (domain name port)))
            (before (to_be_u16 port) w))
        u
      ∙ ap (λ r. after r (λ q. return (domain name q))) (read_network_port-wire port w p)

  read_socks5_domain-wire :
      (name : Bytes) (port : ℕ) (w : Wire)
      → (length name == 0) ≡ false
      → valid_utf8 name ≡ true
      → IsPort port
      → read_socks5_domain valid_utf8 (before (length name ∷ (name ++ to_be_u16 port)) w)
        ≡ (ok (domain name port), w)
  read_socks5_domain-wire name port w z u p =
      ap
        (λ c.
          (if c then fail invalid_socks5_request else (read_exact io_short (length name) >>= named))
            (before (name ++ to_be_u16 port) w))
        z
      ∙ ap (λ (b : Bytes). (read_exact io_short (length name) >>= named) (record w { input = b }))
          (append_assoc name (to_be_u16 port) w.input)
      ∙ ap (λ r. after r named)
          (read_exact-before io_short (length name) name (before (to_be_u16 port) w) refl)
      ∙ named-wire name port w u p

  read_socks5_tcp_target-wire :
      (a : OwnedProxyAddress) (port : ℕ) (w : Wire)
      → IsTarget valid_utf8 a
      → IsPort port
      → read_socks5_tcp_target valid_utf8 (kind_of a) (before (target_body a port) w)
        ≡ (ok (target_of a port), w)
  unfolding read_socks5_tcp_target
  read_socks5_tcp_target-wire (OwnedProxyAddress.ipv4 octets) port w k p =
      read_socks5_ip-wire 4 v4 octets port w k p
  read_socks5_tcp_target-wire (OwnedProxyAddress.ipv6 octets) port w k p =
      read_socks5_ip-wire 16 v6 octets port w k p
  read_socks5_tcp_target-wire (OwnedProxyAddress.domain name) port w (k, l, u) p =
      read_socks5_domain-wire name port w (ground arith) u p

  pub read_socks5_connect_target-wire :
      (a : OwnedProxyAddress) (port : ℕ) (w : Wire)
      → IsTarget valid_utf8 a
      → IsPort port
      → read_socks5_connect_target valid_utf8 (before (5 ∷ 1 ∷ 0 ∷ connect_request a port) w)
        ≡ (ok (target_of a port), written w (5 ∷ 0 ∷ []))
  unfolding read_socks5_connect_target read_socks5_greeting read_socks5_request_header
      validate_socks5_command_and_address_type
  read_socks5_connect_target-wire (OwnedProxyAddress.ipv4 octets) port w k p =
      read_socks5_tcp_target-wire (OwnedProxyAddress.ipv4 octets) port (written w (5 ∷ 0 ∷ [])) k p
  read_socks5_connect_target-wire (OwnedProxyAddress.ipv6 octets) port w k p =
      read_socks5_tcp_target-wire (OwnedProxyAddress.ipv6 octets) port (written w (5 ∷ 0 ∷ [])) k p
  read_socks5_connect_target-wire (OwnedProxyAddress.domain name) port w k p =
      read_socks5_tcp_target-wire (OwnedProxyAddress.domain name) port (written w (5 ∷ 0 ∷ [])) k p
