-- ===== src/Transport/Defs.antt =====
-- crates/zuicity-transport/src/lib.rs: `OwnedProxyHeader`, `OwnedProxyAddress`, the socket addresses
-- of the standard library, and the errors (error.rs) that the modelled parts return. An error that
-- carries a message text is a constructor for that text.
use zuicity.Prelude.{ℕ, [], ◌∷◌, Bool, true, ◌&&◌, ◌==◌, ◌≡◌, length}
use zuicity.Prelude.Bytes.{Bytes, AreBytes}
use zuicity.Protocol.{Network, ProtocolError, IsPort}

-- The octets of an address, in network order.
pub data IpAddr : Type 0 where
  v4 v6 : Bytes → IpAddr

abbrev all_zero : Bytes → Bool
all_zero [] = true
all_zero (b ∷ bytes) = (b == 0) && all_zero bytes

-- `IpAddr::is_unspecified`
abbrev pub is_unspecified : IpAddr → Bool
is_unspecified (v4 octets) = all_zero octets
is_unspecified (v6 octets) = all_zero octets

pub record SocketAddr : Type 0 where
  pub ip : IpAddr
  pub port : ℕ

-- A domain is the UTF-8 bytes of the `String`.
pub data OwnedProxyAddress : Type 0 where
  ipv4 ipv6 domain : Bytes → OwnedProxyAddress

pub record OwnedProxyHeader : Type 0 where
  pub network : Network
  pub address : OwnedProxyAddress
  pub port : ℕ

-- The messages of `TransportError::TuicProxy`.
pub data TuicMessage : Type 0 where
  payload_exceeds_u16 domain_exceeds_255 datagram_size_too_small more_than_255_fragments :
      TuicMessage
  unsupported_by_peer truncated_packet_header unexpected_packet_head : TuicMessage
  association_id_mismatch fragmented_not_implemented invalid_fragment_index : TuicMessage
  non_first_needs_none_address payload_length_mismatch missing_address_type : TuicMessage
  truncated_ipv4_address truncated_ipv6_address truncated_domain_length : TuicMessage
  truncated_domain_address address_type_none_not_valid : TuicMessage
  unsupported_address_type : ℕ → TuicMessage
  first_fragment_missing_address fragment_total_changed duplicate_fragment : TuicMessage
  reassembled_without_address : TuicMessage

-- The messages of the stage "accept".
pub data AcceptMessage : Type 0 where
  unexpected_tuic_version unsupported_tuic_command unknown_tuic_address_type : ℕ → AcceptMessage
  domain_not_utf8 : AcceptMessage

pub data TuicStage : Type 0 where
  connect packet datagram : TuicStage

-- The stages and the messages of `TransportError::Socks5Proxy`.
pub data Socks5Stage : Type 0 where
  method_selection username_password_auth tcp_connect udp_associate udp_relay : Socks5Stage

pub data Socks5Message : Type 0 where
  unexpected_response : Bytes → Socks5Message
  unsupported_method unsupported_bind_address_type unsupported_relay_address_type :
      ℕ → Socks5Message
  empty_credential credential_exceeds_255 domain_target_exceeds_255 : Socks5Message
  invalid_udp_header truncated_ipv4_header truncated_ipv6_header truncated_domain_header :
      Socks5Message

-- The messages of the stages "payload" and "request" of `TransportError::VmessProxy`.
pub data VmessMessage : Type 0 where
  chunk_exceeds_u16 encrypt_chunk invalid_chunk_length decrypt_chunk : VmessMessage
  domain_exceeds_metadata : VmessMessage

-- The messages of `TransportError::TrojanProxy`.
pub data TrojanMessage : Type 0 where
  domain_exceeds_trojan payload_exceeds_trojan missing_crlf exceeds_receive_buffer : TrojanMessage
  unsupported_metadata_type : ℕ → TrojanMessage

-- The messages of `TransportError::VlessProxy`.
pub data VlessMessage : Type 0 where
  domain_exceeds_vless payload_exceeds_vless exceeds_vless_buffer : VlessMessage

-- `quinn::ReadExactError`
pub data ReadExactError : Type 0 where
  finished_early : ℕ → ReadExactError
  read_error : ReadExactError

pub data TransportError : Type 0 where
  protocol : ProtocolError → TransportError
  unexpected_proxy_network : Network → TransportError
  tuic_proxy : TuicStage → TuicMessage → TransportError
  invalid_utf8 : TransportError
  no_usable_udp_target : TransportError
  proxy_stream_closed_before_header : TransportError
  read_exact_failed : ReadExactError → TransportError
  socks5_proxy : Socks5Stage → Socks5Message → TransportError
  vmess_proxy : VmessMessage → TransportError
  trojan_proxy : TrojanMessage → TransportError
  vless_proxy : VlessMessage → TransportError
  accept_tuic : AcceptMessage → TransportError
  io : TransportError

-- What the Rust types guarantee of an owned header.
abbrev pub IsOwnedAddress : OwnedProxyAddress → Type 0
IsOwnedAddress (ipv4 octets) = (length octets ≡ 4) × AreBytes octets
IsOwnedAddress (ipv6 octets) = (length octets ≡ 16) × AreBytes octets
IsOwnedAddress (domain name) = AreBytes name

pub record IsOwnedHeader (h : OwnedProxyHeader) : Type 0 where
  pub address : IsOwnedAddress h.address
  pub port : IsPort h.port

-- What the Rust types guarantee of an address of the standard library.
abbrev pub IsIpAddr : IpAddr → Type 0
IsIpAddr (v4 octets) = (length octets ≡ 4) × AreBytes octets
IsIpAddr (v6 octets) = (length octets ≡ 16) × AreBytes octets
