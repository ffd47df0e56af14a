-- ===== src/Config/Userinfo/Safe.antt =====
-- The bytes of an encoded user name or password.
use zuicity.Prelude.{
  ℕ, ◌/◌, ◌%◌, ◌<◌, ◌≡◌, ◌⊎◌, inl, inr, refl, [], ◌∷◌, ◌++◌, Bool, true, false, if◌then◌else◌,
  arith,
}
use zuicity.Prelude.Bytes.{Bytes, AreBytes}
use zuicity.Config.Userinfo.{
  is_unreserved, upper_hex_digit, percent, percent_encode_byte, percent_encode_userinfo,
}

-- Only `%` and unreserved bytes.
abbrev pub AreSafe : Bytes → Type 0
AreSafe [] = Unit {0}
AreSafe (b ∷ value) = ((b ≡ percent) ⊎ (is_unreserved b ≡ true)) × AreSafe value

digit-unreserved : (d : ℕ) → d < 16 → is_unreserved (upper_hex_digit d) ≡ true
unfolding is_unreserved
digit-unreserved d h = ground arith

append-AreSafe : (a b : Bytes) → AreSafe a → AreSafe b → AreSafe (a ++ b)
append-AreSafe [] b h k = k
append-AreSafe (x ∷ a) b h k = (h.0, append-AreSafe a b h.1 k)

byte-AreSafe :
    (b : ℕ) (t : Bool)
    → b < 256
    → is_unreserved b ≡ t
    → AreSafe
        (if t then b ∷ [] else percent ∷ upper_hex_digit (b / 16) ∷ upper_hex_digit (b % 16) ∷ [])
byte-AreSafe b true h e = (inr e, tt)
byte-AreSafe b false h e = (
  inl refl,
  (
    inr (digit-unreserved (b / 16) (omega arith)),
    (inr (digit-unreserved (b % 16) (omega arith)), tt),
  ),
)

-- The encoding of any bytes consists of `%` and unreserved bytes only: no `@`, `:` or `/`.
pub percent_encode-AreSafe :
    (value : Bytes) → AreBytes value → AreSafe (percent_encode_userinfo value)
unfolding percent_encode_userinfo percent_encode_byte
percent_encode-AreSafe [] h = tt
percent_encode-AreSafe (b ∷ value) h =
    append-AreSafe (percent_encode_byte b) (percent_encode_userinfo value)
      (byte-AreSafe b (is_unreserved b) h.0 refl) (percent_encode-AreSafe value h.1)
