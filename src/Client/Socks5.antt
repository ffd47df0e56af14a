-- ===== src/Client/Socks5.antt =====
-- crates/zuicity-client/src/lib.rs: the SOCKS5 server of the client, from the greeting to the reply
-- (`handle_socks5_connect`, `read_socks5_udp_associate_request`). `valid_utf8` tells whether
-- `String::from_utf8` of the standard library accepts the bytes.
pub mod Udp
pub mod Inbound
pub mod Handshake
pub mod Associate
use zuicity.Prelude.{
  ℕ, List, [], ◌∷◌, ◌++◌, Bool, true, false, ◌&&◌, ◌||◌, not, ◌==◌, if◌then◌else◌, get_or, Option,
  none, some, Outcome,
}
use zuicity.Prelude.Bytes.{Bytes, from_be_u16, to_be_u16}
use zuicity.Session.{Closing, Session, ◌>>=◌, ◌>>◌, return, fail, pure, read_exact, write_all}
use zuicity.Transport.{IpAddr, v4, v6, is_unspecified, SocketAddr}
use zuicity.Client.Defs.{
  ClientError, io, invalid_socks5_request, unsupported_socks5_auth, unsupported_socks5_command,
  TcpForwardTarget, ip, domain, Socks5UdpClientEndpoint,
}

-- `?` on the error of a short read, an `std::io::Error`.
abbrev pub io_short : Closing → ℕ → ClientError
io_short _ _ = io

-- `methods.contains(&method)`
abbrev pub contains : ℕ → Bytes → Bool
contains x [] = false
contains x (y ∷ ys) = (x == y) || contains x ys

abbrev pub bytes_equal : Bytes → Bytes → Bool
bytes_equal [] [] = true
bytes_equal (x ∷ xs) (y ∷ ys) = (x == y) && bytes_equal xs ys
bytes_equal _ _ = false

-- `==` of `IpAddr`
abbrev pub ip_equal : IpAddr → IpAddr → Bool
ip_equal (v4 a) (v4 b) = bytes_equal a b
ip_equal (v6 a) (v6 b) = bytes_equal a b
ip_equal _ _ = false

unfoldable pub read_socks5_greeting : Session ClientError (Unit {0})
read_socks5_greeting = do
  greeting ← read_exact io_short 2
  if not (get_or greeting 0 0 == 5) || get_or greeting 1 0 == 0
      then fail invalid_socks5_request
      else do
        methods ← read_exact io_short (get_or greeting 1 0)
        if not (contains 0 methods)
            then (do write_all (5 ∷ 0xff ∷ []); fail unsupported_socks5_auth)
            else write_all (5 ∷ 0 ∷ [])

unfoldable pub write_socks5_failure_response : ℕ → Session ClientError (Unit {0})
write_socks5_failure_response reply = write_all (5 ∷ reply ∷ 0 ∷ 1 ∷ 0 ∷ 0 ∷ 0 ∷ 0 ∷ 0 ∷ 0 ∷ [])

-- The command and the address type.
unfoldable pub read_socks5_request_header : Session ClientError (ℕ × ℕ)
unfolding write_socks5_failure_response
read_socks5_request_header = do
  header ← read_exact io_short 4
  if not (get_or header 0 0 == 5) || not (get_or header 2 0 == 0)
      then (do write_socks5_failure_response 1; fail invalid_socks5_request)
      else return (get_or header 1 0, get_or header 3 0)

unfoldable pub read_network_port : Session ClientError ℕ
read_network_port = do
  port ← read_exact io_short 2
  return (from_be_u16 (get_or port 0 0) (get_or port 1 0))

unfoldable pub validate_socks5_command_and_address_type : ℕ → ℕ → ℕ → Session ClientError (Unit {0})
unfolding write_socks5_failure_response
validate_socks5_command_and_address_type command expected_command address_type =
    if not (command == expected_command)
    then (do write_socks5_failure_response 7; fail (unsupported_socks5_command command))
    else if not (address_type == 1 || (address_type == 3 || address_type == 4))
    then (do write_socks5_failure_response 8; fail invalid_socks5_request)
    else return tt

-- An address of `n` octets and a port.
abbrev pub read_socks5_ip : ℕ → (Bytes → IpAddr) → Session ClientError TcpForwardTarget
read_socks5_ip n make = do
  addr ← read_exact io_short n
  port ← read_network_port
  return (ip (record { ip = make addr; port = port }))

module _ (valid_utf8 : Bytes → Bool) where
  abbrev pub read_socks5_domain : Session ClientError TcpForwardTarget
  read_socks5_domain = do
    len ← read_exact io_short 1
    if get_or len 0 0 == 0 then fail invalid_socks5_request else do
      name ← read_exact io_short (get_or len 0 0)
      if not (valid_utf8 name)
          then fail invalid_socks5_request
          else do port ← read_network_port; return (domain name port)

  unfoldable pub read_socks5_tcp_target : ℕ → Session ClientError TcpForwardTarget
  unfolding read_network_port
  read_socks5_tcp_target address_type =
      if address_type == 1
      then read_socks5_ip 4 v4
      else if address_type == 3
      then read_socks5_domain
      else if address_type == 4
      then read_socks5_ip 16 v6
      else fail invalid_socks5_request

  unfoldable pub read_socks5_connect_target : Session ClientError TcpForwardTarget
  read_socks5_connect_target = do
    read_socks5_greeting
    (command, address_type) ← read_socks5_request_header
    validate_socks5_command_and_address_type command 1 address_type
    read_socks5_tcp_target address_type

-- `(!ip.is_unspecified()).then_some(ip)`
abbrev pub specified : IpAddr → Option IpAddr
specified address = if is_unspecified address then none else some address

abbrev pub read_endpoint_ip : ℕ → (Bytes → IpAddr) → Session ClientError (Option IpAddr)
read_endpoint_ip n make = do addr ← read_exact io_short n; return (specified (make addr))

abbrev pub read_endpoint_domain : Session ClientError (Option IpAddr)
read_endpoint_domain = do
  len ← read_exact io_short 1
  if get_or len 0 0 == 0
      then fail invalid_socks5_request
      else do name ← read_exact io_short (get_or len 0 0); return none

abbrev pub read_endpoint_address : ℕ → Session ClientError (Option IpAddr)
read_endpoint_address atyp =
    if atyp == 1
    then read_endpoint_ip 4 v4
    else if atyp == 3
    then read_endpoint_domain
    else if atyp == 4
    then read_endpoint_ip 16 v6
    else fail invalid_socks5_request

unfoldable pub read_socks5_udp_client_endpoint : ℕ → Session ClientError Socks5UdpClientEndpoint
read_socks5_udp_client_endpoint atyp = do
  address ← read_endpoint_address atyp
  port ← read_network_port
  return (record { ip = address; port = port })

unfoldable pub read_socks5_udp_associate_request : Session ClientError Socks5UdpClientEndpoint
read_socks5_udp_associate_request = do
  read_socks5_greeting
  (command, address_type) ← read_socks5_request_header
  validate_socks5_command_and_address_type command 3 address_type
  read_socks5_udp_client_endpoint address_type

abbrev none_or : Option IpAddr → IpAddr → Bool
none_or none peer = true
none_or (some address) peer = ip_equal address peer

-- `Socks5UdpClientEndpoint::matches`
unfoldable pub matches : Socks5UdpClientEndpoint → IpAddr → SocketAddr → Bool
matches endpoint control_ip udp_peer =
    ip_equal udp_peer.ip control_ip
    && (none_or endpoint.ip udp_peer.ip && (endpoint.port == 0 || endpoint.port == udp_peer.port))

abbrev pub success_response : SocketAddr → Bytes
success_response bind_addr = elim bind_addr.ip [
  | v4 octets ↦ 5 ∷ 0 ∷ 0 ∷ 1 ∷ (octets ++ to_be_u16 bind_addr.port)
  | v6 octets ↦ 5 ∷ 0 ∷ 0 ∷ 4 ∷ (octets ++ to_be_u16 bind_addr.port)
]

unfoldable pub write_socks5_success_response : SocketAddr → Session ClientError (Unit {0})
write_socks5_success_response bind_addr = write_all (success_response bind_addr)

-- The reply to a CONNECT request, with the address 0.0.0.0 and the port 0.
abbrev pub connect_reply : Bytes
connect_reply = 5 ∷ 0 ∷ 0 ∷ 1 ∷ 0 ∷ 0 ∷ 0 ∷ 0 ∷ 0 ∷ 0 ∷ []

-- `relay_socks5_connect` up to the reply; the relay of the two streams is not part of it. `connect`
-- is what `open_tcp_proxy_stream` returns for a target, over the connection to the server.
unfoldable pub relay_socks5_connect :
    (TcpForwardTarget → Outcome ClientError (Unit {0}))
    → TcpForwardTarget
    → Session ClientError TcpForwardTarget
relay_socks5_connect connect target = do
  pure (connect target)
  write_all connect_reply
  return target

unfoldable pub handle_socks5_connect :
    (Bytes → Bool)
    → (TcpForwardTarget → Outcome ClientError (Unit {0}))
    → Session ClientError TcpForwardTarget
handle_socks5_connect valid_utf8 connect = do
  target ← read_socks5_connect_target valid_utf8
  relay_socks5_connect connect target
