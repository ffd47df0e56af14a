-- ===== src/Config/Fwmark.antt =====
-- crates/zuicity-config/src/lib.rs, `parse_u32_base0`: a firewall mark in Go's syntax of unsigned
-- integers with a base prefix and underscores. A string is its UTF-8 bytes.
pub mod Numeral
use zuicity.Prelude.{
  ℕ, ◌+◌, ◌-◌, ◌*◌, ◌^◌, List, [], ◌∷◌, Bool, true, false, not, ◌||◌, Option, none, some, ◌==◌, ltb,
  leb, if◌then◌else◌, Outcome, ok, err, panic, ◌>>=◌,
}
use zuicity.Prelude.Bytes.{Bytes}
use zuicity.Config.Userinfo.{is_within}

pub data FwmarkParseErrorKind : Type 0 where
  syntax range : FwmarkParseErrorKind

-- The digits behind the prefix, and the base.
unfoldable pub go_parse_uint_base0_digits : Bytes → Option (Bytes × ℕ)
go_parse_uint_base0_digits [] = none
go_parse_uint_base0_digits (a ∷ []) = some (a ∷ [], 10)
go_parse_uint_base0_digits (a ∷ b ∷ rest) =
    if not (a == 48)
    then some (a ∷ b ∷ rest, 10)
    else if b == 120 || b == 88
    then some (rest, 16)
    else if b == 98 || b == 66
    then some (rest, 2)
    else if b == 111 || b == 79
    then some (rest, 8)
    else some (b ∷ rest, 8)

abbrev pub underscore : ℕ
underscore = 95

unfoldable pub digit_of : ℕ → Option ℕ
digit_of byte =
    if is_within 48 57 byte
    then some (byte - 48)
    else if is_within 97 122 byte
    then some (byte - 97 + 10)
    else if is_within 65 90 byte
    then some (byte - 65 + 10)
    else none

abbrev pub u32_max : ℕ
u32_max = 4294967295

-- The variables of the loop.
pub record Scan : Type 0 where
  pub value : ℕ
  pub seen_digit : Bool
  pub previous_was_digit : Bool
  pub overflowed : Bool

-- `checked_mul` and `checked_add` on a `u64`.
abbrev pub checked_mul : ℕ → ℕ → Option ℕ
checked_mul a b = if ltb (a * b) (2 ^ 64) then some (a * b) else none

abbrev pub checked_add : ℕ → ℕ → Option ℕ
checked_add a b = if ltb (a + b) (2 ^ 64) then some (a + b) else none

abbrev pub plus_digit : Option ℕ → ℕ → Option ℕ
plus_digit none digit = none
plus_digit (some v) digit = checked_add v digit

-- The value and the flag behind a digit.
abbrev pub kept : ℕ → Option ℕ → ℕ × Bool
kept value none = (value, true)
kept value (some next) = if leb next u32_max then (next, false) else (value, true)

unfoldable pub accumulate : ℕ → ℕ → Scan → Scan
accumulate radix digit s =
    let (value, overflowed) =
      if s.overflowed
      then (s.value, true)
      else kept s.value (plus_digit (checked_mul s.value radix) digit) in
    record { value = value; seen_digit = true; previous_was_digit = true; overflowed = overflowed }

-- One turn of the loop.
unfoldable pub scan_byte : ℕ → Scan → ℕ → Outcome FwmarkParseErrorKind Scan
scan_byte radix s byte =
    if byte == underscore
    then (if s.previous_was_digit then ok (record s { previous_was_digit = false }) else err syntax)
    else elim (digit_of byte) [
      | none ↦ err syntax
      | some digit ↦ if leb radix digit then err syntax else ok (accumulate radix digit s)
    ]

unfoldable pub scan_bytes : ℕ → Scan → Bytes → Outcome FwmarkParseErrorKind Scan
scan_bytes radix s [] = ok s
scan_bytes radix s (byte ∷ digits) = scan_byte radix s byte >>= λ s'. scan_bytes radix s' digits

abbrev pub scan_start : Scan
scan_start = record {
  value = 0;
  seen_digit = false;
  previous_was_digit = false;
  overflowed = false;
}

unfoldable pub scan_finish : Scan → Outcome FwmarkParseErrorKind ℕ
scan_finish s =
    if not s.seen_digit || not s.previous_was_digit
    then err syntax
    else if s.overflowed
    then err range
    else ok s.value

unfoldable pub parse_u32_digits_with_go_underscores : Bytes → ℕ → Outcome FwmarkParseErrorKind ℕ
parse_u32_digits_with_go_underscores digits radix =
    scan_bytes radix scan_start digits >>= scan_finish

unfoldable pub parse_u32_base0 : Bytes → Outcome FwmarkParseErrorKind ℕ
parse_u32_base0 value = elim (go_parse_uint_base0_digits value) [
  | none ↦ err syntax
  | some (digits, radix) ↦ parse_u32_digits_with_go_underscores digits radix
]
