-- ===== src/Config/Userinfo.antt =====
-- crates/zuicity-config/src/lib.rs, `percent_encode_userinfo`: the user name and password of a
-- SOCKS5 link. A string is its UTF-8 bytes.
pub mod Safe
use zuicity.Prelude.{
  ℕ, ◌+◌, ◌/◌, ◌%◌, List, [], ◌∷◌, ◌++◌, Bool, ◌&&◌, ◌||◌, ◌==◌, ltb, leb, if◌then◌else◌,
}
use zuicity.Prelude.Bytes.{Bytes}

-- `lo..=hi`
abbrev pub is_within : ℕ → ℕ → ℕ → Bool
is_within lo hi b = leb lo b && leb b hi

-- `A-Z`, `a-z`, `0-9`, `-`, `_`, `.` and `~`
unfoldable pub is_unreserved : ℕ → Bool
is_unreserved b =
    is_within 65 90 b
    || is_within 97 122 b
    || is_within 48 57 b
    || b == 45
    || b == 95
    || b == 46
    || b == 126

-- A digit of `{:02X}`.
abbrev pub upper_hex_digit : ℕ → ℕ
upper_hex_digit d = if ltb d 10 then 48 + d else 55 + d

abbrev pub percent : ℕ
percent = 37

unfoldable pub percent_encode_byte : ℕ → Bytes
percent_encode_byte b =
    if is_unreserved b
    then b ∷ []
    else percent ∷ upper_hex_digit (b / 16) ∷ upper_hex_digit (b % 16) ∷ []

unfoldable pub percent_encode_userinfo : Bytes → Bytes
percent_encode_userinfo [] = []
percent_encode_userinfo (b ∷ value) = percent_encode_byte b ++ percent_encode_userinfo value
