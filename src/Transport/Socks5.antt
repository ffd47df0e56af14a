-- ===== src/Transport/Socks5.antt =====
-- crates/zuicity-transport/src/lib.rs: the SOCKS5 dialer, `socks5_negotiate_auth`,
-- `socks5_username_password_auth`, `socks5_connect`, `encode_socks5_target`, `socks5_udp_associate`
-- and `read_socks5_reply_addr`.
pub mod Udp
use zuicity.Prelude.{
  ℕ, ◌+◌, List, [], ◌∷◌, ◌++◌, Bool, true, false, ◌&&◌, ◌||◌, not, ◌==◌, ltb, if◌then◌else◌, length,
  get_or, take, Option, none, some, Outcome, ok, err, panic,
}
use zuicity.Prelude.Bytes.{Bytes, from_be_u16, to_be_u16}
use zuicity.Session.{Closing, Session, ◌>>=◌, ◌>>◌, return, fail, pure, read_exact, write_all}
use zuicity.Transport.Defs.{
  IpAddr, v4, v6, is_unspecified, SocketAddr, OwnedProxyAddress, ipv4, ipv6, domain,
  OwnedProxyHeader, TransportError, io, invalid_utf8, no_usable_udp_target, socks5_proxy,
  Socks5Stage, method_selection, username_password_auth, tcp_connect, udp_associate, Socks5Message,
  unexpected_response, unsupported_method, unsupported_bind_address_type, empty_credential,
  credential_exceeds_255, domain_target_exceeds_255,
}
use zuicity.Transport.Tuic.Target.{Resolver}

-- The credentials of the link, as UTF-8 bytes.
pub record Socks5DialerLink : Type 0 where
  pub username : Option Bytes
  pub password : Option Bytes

-- `?` on the error of a short read, an `std::io::Error`.
abbrev pub socks5_short : Closing → ℕ → TransportError
socks5_short _ _ = io

abbrev pub socks5_fail {ℓ} : {A : Type ℓ} → Socks5Stage → Socks5Message → Session TransportError A
socks5_fail stage message = fail (socks5_proxy stage message)

abbrev pub is_some : Option Bytes → Bool
is_some none = false
is_some (some _) = true

abbrev pub unwrap_or_default : Option Bytes → Bytes
unwrap_or_default none = []
unwrap_or_default (some bytes) = bytes

abbrev pub is_empty : Bytes → Bool
is_empty [] = true
is_empty (_ ∷ _) = false

abbrev pub auth_request : Bytes → Bytes → Bytes
auth_request username password = 1 ∷ length username ∷ (username ++ (length password ∷ password))

unfoldable pub socks5_username_password_auth : Socks5DialerLink → Session TransportError (Unit {0})
socks5_username_password_auth link =
    let username = unwrap_or_default link.username in
    let password = unwrap_or_default link.password in
    if is_empty username || is_empty password
    then socks5_fail username_password_auth empty_credential
    else if ltb 255 (length username) || ltb 255 (length password)
    then socks5_fail username_password_auth credential_exceeds_255
    else do
      write_all (auth_request username password)
      response ← read_exact socks5_short 2
      if not (get_or response 0 0 == 1 && get_or response 1 0 == 0)
          then socks5_fail username_password_auth (unexpected_response response)
          else return tt

abbrev pub chosen_method : Socks5DialerLink → ℕ
chosen_method link = if is_some link.username || is_some link.password then 2 else 0

unfoldable pub socks5_negotiate_auth : Socks5DialerLink → Session TransportError (Unit {0})
socks5_negotiate_auth link = do
  write_all (5 ∷ 1 ∷ chosen_method link ∷ [])
  method_response ← read_exact socks5_short 2
  if not (get_or method_response 0 0 == 5) || get_or method_response 1 0 == 0xff
      then socks5_fail method_selection (unexpected_response method_response)
      else if not (get_or method_response 1 0 == chosen_method link)
      then socks5_fail method_selection (unsupported_method (get_or method_response 1 0))
      else if get_or method_response 1 0 == 2
      then socks5_username_password_auth link
      else return tt

-- The buffer that the call leaves, with its outcome.
abbrev put_socks5_target : OwnedProxyAddress → ℕ → Bytes → Outcome TransportError (Unit {0}) × Bytes
put_socks5_target (ipv4 octets) port output = (ok tt, output ++ (1 ∷ (octets ++ to_be_u16 port)))
put_socks5_target (ipv6 octets) port output = (ok tt, output ++ (4 ∷ (octets ++ to_be_u16 port)))
put_socks5_target (domain name) port output =
    if ltb 255 (length name)
    then (err (socks5_proxy tcp_connect domain_target_exceeds_255), output)
    else (ok tt, output ++ (3 ∷ length name ∷ (name ++ to_be_u16 port)))

unfoldable pub encode_socks5_target :
    OwnedProxyHeader → Bytes → Outcome TransportError (Unit {0}) × Bytes
encode_socks5_target h output = put_socks5_target h.address h.port output

-- `encode(…)?` into a buffer, and `write_all` of the buffer.
abbrev pub write_target :
    Outcome TransportError (Unit {0}) × Bytes → Session TransportError (Unit {0})
write_target (ok _, request) = write_all request
write_target (err e, request) = fail e
write_target (panic, request) = pure panic

-- `response[0] != 0x05 || response[1] != 0x00 || response[2] != 0x00`
abbrev pub refused : Bytes → Bool
refused response =
    not (get_or response 0 0 == 5)
    || (not (get_or response 1 0 == 0) || not (get_or response 2 0 == 0))

abbrev pub bind_address_len : ℕ → Session TransportError ℕ
bind_address_len kind =
    if kind == 1
    then return 4
    else if kind == 3
    then (do len ← read_exact socks5_short 1; return (get_or len 0 0))
    else if kind == 4
    then return 16
    else socks5_fail tcp_connect (unsupported_bind_address_type kind)

abbrev pub read_connect_reply : Session TransportError (Unit {0})
read_connect_reply = do
  response ← read_exact socks5_short 4
  if refused response then socks5_fail tcp_connect (unexpected_response response) else do
    address_len ← bind_address_len (get_or response 3 0)
    ignored ← read_exact socks5_short (address_len + 2)
    return tt

unfoldable pub socks5_connect :
    OwnedProxyHeader → Socks5DialerLink → Session TransportError (Unit {0})
socks5_connect h link = do
  socks5_negotiate_auth link
  write_target (encode_socks5_target h (5 ∷ 1 ∷ 0 ∷ []))
  read_connect_reply

-- `SocketAddr::is_ipv4`
abbrev pub is_ipv4 : IpAddr → Bool
is_ipv4 (v4 _) = true
is_ipv4 (v6 _) = false

-- `==` of Booleans
abbrev same : Bool → Bool → Bool
same true b = b
same false b = not b

-- `.find(|address| address.is_ipv4() == ipv4).ok_or(NoUsableUdpTarget)`
abbrev pub find_family : Bool → List SocketAddr → Outcome TransportError SocketAddr
find_family want_ipv4 [] = err no_usable_udp_target
find_family want_ipv4 (a ∷ addresses) =
    if same (is_ipv4 a.ip) want_ipv4 then ok a else find_family want_ipv4 addresses

-- The relay's address is the proxy's own where the reply leaves it open.
abbrev pub relay_address : SocketAddr → SocketAddr → SocketAddr
relay_address proxy_target relay_addr =
    if is_unspecified relay_addr.ip
    then record { ip = proxy_target.ip; port = relay_addr.port }
    else relay_addr

abbrev pub unspecified_target : Bool → Bytes
unspecified_target true = 1 ∷ 0 ∷ 0 ∷ 0 ∷ 0 ∷ []
unspecified_target false = 4 ∷ 0 ∷ 0 ∷ 0 ∷ 0 ∷ 0 ∷ 0 ∷ 0 ∷ 0 ∷ 0 ∷ 0 ∷ 0 ∷ 0 ∷ 0 ∷ 0 ∷ 0 ∷ 0 ∷ []

module _ (net : Resolver) where
  abbrev found_family :
      Bool → Outcome TransportError (List SocketAddr) → Outcome TransportError SocketAddr
  found_family want_ipv4 (ok addresses) = find_family want_ipv4 addresses
  found_family want_ipv4 (err e) = err e
  found_family want_ipv4 panic = panic

  unfoldable pub resolve_socks5_domain_address :
      Bytes → ℕ → Bool → Outcome TransportError SocketAddr
  resolve_socks5_domain_address name port want_ipv4 =
      found_family want_ipv4 (net.to_socket_addrs name port)

  abbrev pub read_reply_ip : ℕ → (Bytes → IpAddr) → Session TransportError SocketAddr
  read_reply_ip n make = do
    raw ← read_exact socks5_short (n + 2)
    return (record {
      ip = make (take n raw);
      port = from_be_u16 (get_or raw n 0) (get_or raw (n + 1) 0);
    })

  abbrev pub read_reply_domain : Bool → Session TransportError SocketAddr
  read_reply_domain want_ipv4 = do
    len ← read_exact socks5_short 1
    raw ← read_exact socks5_short (get_or len 0 0 + 2)
    let n = get_or len 0 0
    if not (net.valid_utf8 (take n raw))
        then fail invalid_utf8
        else pure (
            resolve_socks5_domain_address (take n raw)
              (from_be_u16 (get_or raw n 0) (get_or raw (n + 1) 0)) want_ipv4)

  unfoldable pub read_socks5_reply_addr : Socks5Stage → Bool → Session TransportError SocketAddr
  read_socks5_reply_addr stage want_ipv4 = do
    response ← read_exact socks5_short 4
    let kind = get_or response 3 0
    if refused response
        then socks5_fail stage (unexpected_response response)
        else if kind == 1
        then read_reply_ip 4 v4
        else if kind == 3
        then read_reply_domain want_ipv4
        else if kind == 4
        then read_reply_ip 16 v6
        else socks5_fail stage (unsupported_bind_address_type kind)

  unfoldable pub socks5_udp_associate :
      Socks5DialerLink → SocketAddr → Session TransportError SocketAddr
  socks5_udp_associate link proxy_target = do
    socks5_negotiate_auth link
    write_all (5 ∷ 3 ∷ 0 ∷ (unspecified_target (is_ipv4 proxy_target.ip) ++ to_be_u16 0))
    relay_addr ← read_socks5_reply_addr udp_associate (is_ipv4 proxy_target.ip)
    return (relay_address proxy_target relay_addr)
