-- ===== src/Transport/Vmess/Request.antt =====
-- crates/zuicity-transport/src/lib.rs: the instruction of a VMess request,
-- `VmessStreamContext::request_instruction`. The CRC-32 of the instruction is an argument.
use zuicity.Prelude.{
  ℕ, ◌/◌, ◌%◌, [], ◌∷◌, ◌++◌, ltb, if◌then◌else◌, length, Outcome, ok, err, panic,
}
use zuicity.Prelude.Bytes.{Bytes, to_be_u16}
use zuicity.Protocol.{Network, tcp, udp}
use zuicity.Transport.Defs.{
  OwnedProxyAddress, ipv4, ipv6, domain, OwnedProxyHeader, TransportError, vmess_proxy,
  domain_exceeds_metadata,
}

-- `key`s and initialisation vectors have 16 bytes.
pub record VmessStreamContext : Type 0 where
  pub request_body_iv : Bytes
  pub request_body_key : Bytes
  pub response_body_iv : Bytes
  pub response_body_key : Bytes
  pub response_auth : ℕ
  pub request_options : ℕ

abbrev pub vmess_network_byte : Network → ℕ
vmess_network_byte tcp = 1
vmess_network_byte udp = 2

-- The buffer that the call leaves, with its outcome.
abbrev pub put_vmess_address : OwnedProxyAddress → Bytes → Outcome TransportError (Unit {0}) × Bytes
put_vmess_address (ipv4 octets) instruction = (ok tt, instruction ++ (1 ∷ octets))
put_vmess_address (domain name) instruction =
    if ltb 255 (length name)
    then (err (vmess_proxy domain_exceeds_metadata), instruction)
    else (ok tt, instruction ++ (2 ∷ length name ∷ name))
put_vmess_address (ipv6 octets) instruction = (ok tt, instruction ++ (3 ∷ octets))

unfoldable pub encode_vmess_target_metadata :
    Bytes → OwnedProxyHeader → Outcome TransportError (Unit {0}) × Bytes
encode_vmess_target_metadata instruction h =
    put_vmess_address h.address (instruction ++ to_be_u16 h.port)

-- `value.to_be_bytes()` of a u32
abbrev pub to_be_u32 : ℕ → Bytes
to_be_u32 value =
    (value / 16777216 % 256) ∷ (value / 65536 % 256) ∷ (value / 256 % 256) ∷ (value % 256) ∷ []

module _ (crc32 : Bytes → ℕ) where
  abbrev pub with_checksum :
      Outcome TransportError (Unit {0}) × Bytes → Outcome TransportError Bytes
  with_checksum (ok _, instruction) = ok (instruction ++ to_be_u32 (crc32 instruction))
  with_checksum (err e, _) = err e
  with_checksum (panic, _) = panic

  unfoldable pub request_instruction :
      VmessStreamContext → OwnedProxyHeader → Outcome TransportError Bytes
  request_instruction c h = with_checksum (
      encode_vmess_target_metadata
        (1
          ∷ (c.request_body_iv
              ++ (c.request_body_key
                  ++ (c.response_auth
                      ∷ c.request_options
                      ∷ 3
                      ∷ 0
                      ∷ vmess_network_byte h.network
                      ∷ []))))
        h)
