-- ===== src/Transport/Hysteria2.antt =====
-- crates/zuicity-transport/src/lib.rs: the variable-length integers of the Hysteria2 dialer,
-- `write_hysteria2_varint` and `read_hysteria2_datagram_varint`, and its errors. The UDP packets are
-- in Packet.
pub mod Varint
pub mod Packet
use zuicity.Prelude.{
  ℕ, zero, suc, ◌+◌, ◌-◌, ◌*◌, ◌/◌, ◌%◌, ◌^◌, List, [], ◌∷◌, ◌++◌, ltb, leb, if◌then◌else◌, length,
  get_or, Outcome, ok, err, ◌>>=◌,
}
use zuicity.Prelude.Bytes.{Bytes, index}

-- What the errors of `TransportError::Hysteria2Proxy` say.
pub data Hysteria2Error : Type 0 where
  exceeds_range : ℕ → Hysteria2Error
  missing_varint truncated_varint truncated_header session_id_mismatch fragmented_not_implemented :
      Hysteria2Error
  invalid_address_length invalid_payload_length address_not_utf8 : Hysteria2Error

abbrev pub varint_max : ℕ
varint_max = 4611686018427387903

-- `value >> (8 * n)`
abbrev pub shr_bytes : ℕ → ℕ → ℕ
shr_bytes zero value = value
shr_bytes (suc n) value = shr_bytes n value / 256

-- `(value >> (8 * n)) as u8`
abbrev pub byte_of : ℕ → ℕ → ℕ
byte_of n value = shr_bytes n value % 256

-- `b | 0x40`, `b | 0x80` and `b | 0xc0` on a byte
abbrev pub or_40 : ℕ → ℕ
or_40 b = b / 128 * 128 + 64 + b % 64

abbrev pub or_80 : ℕ → ℕ
or_80 b = 128 + b % 128

abbrev pub or_c0 : ℕ → ℕ
or_c0 b = 192 + b % 64

-- The outcome, and the buffer it leaves.
unfoldable pub write_hysteria2_varint : ℕ → Bytes → Outcome Hysteria2Error (Unit {0}) × Bytes
write_hysteria2_varint value output =
    if leb value 63
    then (ok tt, output ++ (value % 256 ∷ []))
    else if leb value 16383
    then (ok tt, output ++ (or_40 (byte_of 1 value) ∷ byte_of 0 value ∷ []))
    else if leb value 1073741823
    then (
      ok tt,
      output
          ++ (or_80 (byte_of 3 value) ∷ byte_of 2 value ∷ byte_of 1 value ∷ byte_of 0 value ∷ []),
    )
    else if leb value varint_max
    then (
      ok tt,
      output
          ++ (or_c0 (byte_of 7 value)
              ∷ byte_of 6 value
              ∷ byte_of 5 value
              ∷ byte_of 4 value
              ∷ byte_of 3 value
              ∷ byte_of 2 value
              ∷ byte_of 1 value
              ∷ byte_of 0 value
              ∷ []),
    )
    else (err (exceeds_range value), output)

-- `(value << 8) | byte` on a `u64`, whose low byte the shift has cleared
abbrev pub shift_in : ℕ → ℕ → ℕ
shift_in value byte = value * 256 % 2 ^ 64 + byte

-- The value, and the offset behind what was read.
unfoldable pub read_rest : Bytes → ℕ → ℕ → ℕ → Outcome Hysteria2Error (ℕ × ℕ)
unfolding index
read_rest datagram zero offset value = ok (value, offset)
read_rest datagram (suc rounds) offset value = do
  byte ← index datagram offset
  read_rest datagram rounds (offset + 1) (shift_in value byte)

unfoldable pub read_behind : Bytes → ℕ → ℕ → Outcome Hysteria2Error (ℕ × ℕ)
read_behind datagram offset first =
    let len = 2 ^ (first / 64) in
    if ltb (length datagram) (offset + len - 1)
    then err truncated_varint
    else read_rest datagram (len - 1) offset (first % 64)

unfoldable pub read_hysteria2_datagram_varint : Bytes → ℕ → Outcome Hysteria2Error (ℕ × ℕ)
read_hysteria2_datagram_varint datagram offset =
    if ltb offset (length datagram)
    then read_behind datagram (offset + 1) (get_or datagram offset 0)
    else err missing_varint
