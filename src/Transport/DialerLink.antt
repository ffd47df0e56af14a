-- ===== src/Transport/DialerLink.antt =====
-- crates/zuicity-transport/src/lib.rs: `percent_decode_bytes` and `decode_hex_bytes`, for the parts
-- of a proxy dialer link. A string is its UTF-8 bytes.
pub mod Percent
use zuicity.Prelude.{
  ℕ, ◌+◌, ◌-◌, ◌*◌, ◌%◌, List, [], ◌∷◌, Bool, true, false, ◌&&◌, ◌||◌, Option, none, some, ◌==◌,
  ltb, leb, if◌then◌else◌, length, Outcome, ok, err, panic, ◌>>=◌,
}
use zuicity.Prelude.Bytes.{Bytes}
use zuicity.Config.Userinfo.{is_within, percent}

-- What is wrong with an escape, or with a hexadecimal string.
pub data EscapeError : Type 0 where
  truncated_escape escape_not_utf8 escape_not_hex : EscapeError

pub data HexError : Type 0 where
  invalid_length : ℕ → HexError
  invalid_byte : ℕ → HexError

-- Two bytes are UTF-8 where both are ASCII, or where they encode one character.
unfoldable pub is_utf8_pair : ℕ → ℕ → Bool
is_utf8_pair a b = ltb a 128 && ltb b 128 || is_within 194 223 a && is_within 128 191 b

unfoldable pub hex_value : ℕ → Option ℕ
hex_value b =
    if is_within 48 57 b
    then some (b - 48)
    else if is_within 65 70 b
    then some (b - 55)
    else if is_within 97 102 b
    then some (b - 87)
    else none

abbrev two_digits : Option ℕ → Option ℕ → Option ℕ
two_digits (some h) (some l) = some (h * 16 + l)
two_digits _ _ = none

-- `u8::from_str_radix(text, 16)` on two bytes: a leading `+` is a sign.
unfoldable pub from_hex_pair : ℕ → ℕ → Option ℕ
from_hex_pair a b = if a == 43 then hex_value b else two_digits (hex_value a) (hex_value b)

abbrev escaped_byte : ℕ → ℕ → Outcome EscapeError ℕ
escaped_byte a b =
    if is_utf8_pair a b
    then (elim (from_hex_pair a b) [ some n ↦ ok n | none ↦ err escape_not_hex ])
    else err escape_not_utf8

abbrev pub pushed : ℕ → Outcome EscapeError Bytes → Outcome EscapeError Bytes
pushed b rest = do decoded ← rest; ok (b ∷ decoded)

-- The bytes from `index` on.
unfoldable pub percent_decode_bytes : Bytes → Outcome EscapeError Bytes
percent_decode_bytes [] = ok []
percent_decode_bytes (b ∷ []) = if b == percent then err truncated_escape else ok (b ∷ [])
percent_decode_bytes (b ∷ a ∷ []) =
    let next = percent_decode_bytes (a ∷ []) in
    if b == percent then err truncated_escape else pushed b next
percent_decode_bytes (b ∷ a ∷ c ∷ bytes) =
    let behind = percent_decode_bytes bytes in
    let next = percent_decode_bytes (a ∷ c ∷ bytes) in
    if b == percent then (do n ← escaped_byte a c; pushed n behind) else pushed b next

-- The loop of `decode_hex_bytes` over `chunks_exact(2)`.
unfoldable pub decode_hex_pairs : Bytes → Outcome HexError Bytes
decode_hex_pairs [] = ok []
decode_hex_pairs (b ∷ []) = ok []
decode_hex_pairs (a ∷ b ∷ bytes) =
    let rest = decode_hex_pairs bytes in
    if is_utf8_pair a b
    then (elim (from_hex_pair a b) [
      | some n ↦ (do decoded ← rest; ok (n ∷ decoded))
      | none ↦ err (invalid_byte a)
    ])
    else err (invalid_byte a)

unfoldable pub decode_hex_bytes : Bytes → Outcome HexError Bytes
decode_hex_bytes value =
    if length value % 2 == 0 then decode_hex_pairs value else err (invalid_length (length value))
