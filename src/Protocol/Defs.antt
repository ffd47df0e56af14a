-- ===== src/Protocol/Defs.antt =====
-- crates/zuicity-protocol/src/lib.rs: constants, `Network`, `ProxyAddress`,
-- `ProxyHeader`, `ProtocolError`. An address of the standard library is its list of octets.
use zuicity.Prelude.{ℕ, ◌+◌, ◌<◌, ◌≡◌, ◌==◌, if◌then◌else◌, ltb, length, Outcome, ok, err}
use zuicity.Prelude.Bytes.{Bytes, AreBytes}

abbrev pub version_0 : ℕ
version_0 = 0

abbrev pub cmd_authentication : ℕ
cmd_authentication = 0

abbrev pub auth_token_len : ℕ
auth_token_len = 32

abbrev pub auth_uuid_len : ℕ
auth_uuid_len = 16

abbrev pub command_header_len : ℕ
command_header_len = 2

abbrev pub authentication_frame_len : ℕ
authentication_frame_len = command_header_len + auth_uuid_len + auth_token_len

abbrev pub network_tcp : ℕ
network_tcp = 1

abbrev pub network_udp : ℕ
network_udp = 3

abbrev pub runtime_addr_type_ipv4 : ℕ
runtime_addr_type_ipv4 = 1

abbrev pub runtime_addr_type_domain : ℕ
runtime_addr_type_domain = 3

abbrev pub runtime_addr_type_ipv6 : ℕ
runtime_addr_type_ipv6 = 4

abbrev pub udp_payload_length_len : ℕ
udp_payload_length_len = 2

pub data ProtocolError : Type 0 where
  unknown_network unknown_addr_type unknown_runtime_addr_type : ℕ → ProtocolError
  unexpected_version unexpected_command_type : ℕ → ProtocolError
  exporter : Bytes → ProtocolError
  domain_too_long udp_payload_too_long : ℕ → ProtocolError
  truncated : ℕ → ℕ → ProtocolError
  invalid_certificate_chain_pem : ProtocolError

pub data Network : Type 0 where
  tcp udp : Network

-- `Network::as_u8`
unfoldable pub network_as_u8 : Network → ℕ
network_as_u8 tcp = network_tcp
network_as_u8 udp = network_udp

-- `Network::try_from`
unfoldable pub network_try_from : ℕ → Outcome ProtocolError Network
network_try_from value =
    if value == network_tcp
    then ok tcp
    else if value == network_udp
    then ok udp
    else err (unknown_network value)

pub data ProxyAddress : Type 0 where
  ipv4 ipv6 domain : Bytes → ProxyAddress

-- `ProxyAddress::runtime_metadata_len`
unfoldable pub runtime_metadata_len : ProxyAddress → ℕ
runtime_metadata_len (ipv4 _) = 1 + 4 + 2
runtime_metadata_len (ipv6 _) = 1 + 16 + 2
runtime_metadata_len (domain name) = 1 + 1 + length name + 2

pub record ProxyHeader : Type 0 where
  pub network : Network
  pub address : ProxyAddress
  pub port : ℕ

-- `ProxyHeader::encoded_len`
unfoldable pub encoded_len : ProxyHeader → ℕ
unfolding runtime_metadata_len
encoded_len h = 1 + runtime_metadata_len h.address

unfoldable pub require_len : Bytes → ℕ → Outcome ProtocolError (Unit {0})
require_len input needed =
    if ltb (length input) needed then err (truncated needed (length input)) else ok tt

-- What the Rust types guarantee of an address: `Ipv4Addr` has 4 octets, `Ipv6Addr` has 16, a domain
-- is a byte slice.
abbrev pub IsAddress : ProxyAddress → Type 0
IsAddress (ipv4 octets) = (length octets ≡ 4) × AreBytes octets
IsAddress (ipv6 octets) = (length octets ≡ 16) × AreBytes octets
IsAddress (domain name) = AreBytes name

abbrev pub IsPort : ℕ → Type 0
IsPort port = port < 65536
