-- ===== src/Client/Defs.antt =====
-- crates/zuicity-client/src/lib.rs: `TcpForwardTarget`, `Socks5UdpTarget`, `Socks5UdpClientEndpoint`,
-- and the variants of `ClientError` that the SOCKS5 server returns. A domain is the UTF-8 bytes of
-- the `String`; the addresses of the standard library are those of the transport's model.
use zuicity.Prelude.{ℕ, Option}
use zuicity.Prelude.Bytes.{Bytes}
use zuicity.Transport.{IpAddr, SocketAddr, TransportError}

pub data ClientError : Type 0 where
  io invalid_socks5_request unsupported_socks5_auth : ClientError
  unsupported_socks5_command : ℕ → ClientError
  transport : TransportError → ClientError

pub data TcpForwardTarget : Type 0 where
  ip : SocketAddr → TcpForwardTarget
  domain : Bytes → ℕ → TcpForwardTarget

pub record Socks5UdpClientEndpoint : Type 0 where
  pub ip : Option IpAddr
  pub port : ℕ
