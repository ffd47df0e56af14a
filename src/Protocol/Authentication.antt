-- ===== src/Protocol/Authentication.antt =====
-- crates/zuicity-protocol/src/lib.rs: `AuthenticationRequest` and `export_authentication_token`.
-- A `Uuid` is its 16 bytes; the TLS exporter is an argument.
pub mod Codec
use zuicity.Prelude.{
  ℕ, ◌+◌, [], ◌∷◌, ◌++◌, not, ◌==◌, if◌then◌else◌, Outcome, ok, err, ◌>>=◌, ◌>>◌, replicate,
}
use zuicity.Prelude.Bytes.{Bytes, index, slice, slice_from}
use zuicity.Protocol.Defs.{
  ProtocolError, unexpected_version, unexpected_command_type, require_len, version_0,
  cmd_authentication, command_header_len, auth_uuid_len, auth_token_len, authentication_frame_len,
}

pub record AuthenticationRequest : Type 0 where
  pub uuid : Bytes
  pub token : Bytes

unfoldable pub encode_to : AuthenticationRequest → Bytes → Bytes
encode_to r dst = dst ++ (version_0 ∷ cmd_authentication ∷ (r.uuid ++ r.token))

unfoldable pub decode : Bytes → Outcome ProtocolError (AuthenticationRequest × Bytes)
unfolding require_len index slice slice_from
decode input = do
  require_len input authentication_frame_len
  version ← index input 0
  if not (version == version_0) then err (unexpected_version version) else do
    command ← index input 1
    if not (command == cmd_authentication) then err (unexpected_command_type command) else do
      uuid ← slice input command_header_len (command_header_len + auth_uuid_len)
      token ← slice input (command_header_len + auth_uuid_len) authentication_frame_len
      rest ← slice_from input authentication_frame_len
      ok (record { uuid = uuid; token = token }, rest)

-- The exporter is given the zeroed token, the UUID's bytes and the password, and returns its
-- outcome with the token it leaves.
unfoldable pub export_authentication_token :
    Bytes
    → Bytes
    → (Bytes → Bytes → Bytes → Outcome ProtocolError (Unit {0}) × Bytes)
    → Outcome ProtocolError Bytes
export_authentication_token uuid password export =
    let (done, token) = export (replicate auth_token_len 0) uuid password in done >> ok token
