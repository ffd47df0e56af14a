-- ===== src/Transport/DialerLink/Percent.antt =====
-- `percent_encode_userinfo` and then `percent_decode_bytes`.
use zuicity.Prelude.{
  ℕ, ◌+◌, ◌*◌, ◌/◌, ◌%◌, ◌<◌, ◌≡◌, ◌≢◌, refl, ap, ◌∙◌, [], ◌∷◌, ◌++◌, true, false, some,
  if◌then◌else◌, arith, ok, Bool-cases, inl, inr,
}
use zuicity.Prelude.Bytes.{Bytes, AreBytes}
use zuicity.Config.Userinfo.{
  is_unreserved, upper_hex_digit, percent, percent_encode_byte, percent_encode_userinfo,
}
use zuicity.Transport.DialerLink.{
  is_utf8_pair, hex_value, from_hex_pair, percent_decode_bytes, pushed,
}

hex_value-upper : (d : ℕ) → d < 16 → hex_value (upper_hex_digit d) ≡ some d
unfolding hex_value
hex_value-upper d h = ground arith

pair-upper :
    (h l : ℕ)
    → h < 16
    → l < 16
    → from_hex_pair (upper_hex_digit h) (upper_hex_digit l) ≡ some (h * 16 + l)
unfolding from_hex_pair
pair-upper h l p q = ground (arith, hex_value-upper h p, hex_value-upper l q)

utf8-upper :
    (h l : ℕ) → h < 16 → l < 16 → is_utf8_pair (upper_hex_digit h) (upper_hex_digit l) ≡ true
unfolding is_utf8_pair
utf8-upper h l p q = ground arith

unreserved-ne-percent : is_unreserved percent ≡ false
unfolding is_unreserved
unreserved-ne-percent = refl

decode-plain :
    (b : ℕ) (bytes : Bytes)
    → b ≢ percent
    → percent_decode_bytes (b ∷ bytes) ≡ pushed b (percent_decode_bytes bytes)
unfolding percent_decode_bytes
decode-plain b [] n = ground arith
decode-plain b (a ∷ []) n = ground arith
decode-plain b (a ∷ c ∷ bytes) n = ground arith

decode-escape :
    (b : ℕ) (bytes : Bytes)
    → b < 256
    → percent_decode_bytes (percent ∷ upper_hex_digit (b / 16) ∷ upper_hex_digit (b % 16) ∷ bytes)
      ≡ pushed b (percent_decode_bytes bytes)
unfolding percent_decode_bytes
decode-escape b bytes h =
    let hi : b / 16 < 16 = omega arith in
    let lo : b % 16 < 16 = omega arith in
    let whole : b / 16 * 16 + b % 16 ≡ b = omega arith in
    ground (arith, pair-upper (b / 16) (b % 16) hi lo, utf8-upper (b / 16) (b % 16) hi lo, whole)

decode-byte :
    (b : ℕ) (bytes : Bytes)
    → b < 256
    → percent_decode_bytes (percent_encode_byte b ++ bytes) ≡ pushed b (percent_decode_bytes bytes)
unfolding percent_encode_byte
decode-byte b bytes h = elim (Bool-cases (is_unreserved b)) [
  | inl e ↦
      ap
        (λ t. percent_decode_bytes (
          (if t then b ∷ [] else percent ∷ upper_hex_digit (b / 16) ∷ upper_hex_digit (b % 16) ∷ [])
          ++ bytes))
        e
      ∙ decode-plain b bytes (λ p. cc (p, e, unreserved-ne-percent))
  | inr e ↦
      ap
        (λ t. percent_decode_bytes (
          (if t then b ∷ [] else percent ∷ upper_hex_digit (b / 16) ∷ upper_hex_digit (b % 16) ∷ [])
          ++ bytes))
        e
      ∙ decode-escape b bytes h
]

-- `percent_decode_bytes` gives back any bytes that `percent_encode_userinfo` encoded.
pub percent_decode-percent_encode :
    (value : Bytes)
    → AreBytes value
    → percent_decode_bytes (percent_encode_userinfo value) ≡ ok value
unfolding percent_decode_bytes percent_encode_userinfo
percent_decode-percent_encode [] h = refl
percent_decode-percent_encode (b ∷ value) h =
    decode-byte b (percent_encode_userinfo value) h.0
    ∙ ap (pushed b) (percent_decode-percent_encode value h.1)
