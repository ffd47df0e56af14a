-- ===== src/Config/Tests.antt =====
-- Firewall marks and encoded user names.
use zuicity.Prelude.{◌≡◌, refl, [], ◌∷◌, inl, ok, err}
use zuicity.Prelude.Bytes.{Bytes}
use zuicity.Config.Fwmark.{
  syntax, range, go_parse_uint_base0_digits, digit_of, accumulate, scan_byte, scan_bytes,
  scan_finish, parse_u32_digits_with_go_underscores, parse_u32_base0,
}
use zuicity.Config.Fwmark.Numeral.{read_base0, parse_u32_base0-read, underscore_behind_prefix}

-- `0x1_F`
abbrev mark : Bytes
mark = 48 ∷ 120 ∷ 49 ∷ 95 ∷ 70 ∷ []

mark_value : parse_u32_base0 mark ≡ ok 31
unfolding parse_u32_base0 go_parse_uint_base0_digits parse_u32_digits_with_go_underscores scan_bytes
    scan_byte digit_of accumulate scan_finish
mark_value = refl

-- `4294967296`
too_large : parse_u32_base0 (52 ∷ 50 ∷ 57 ∷ 52 ∷ 57 ∷ 54 ∷ 55 ∷ 50 ∷ 57 ∷ 54 ∷ []) ≡ err range
unfolding parse_u32_base0 go_parse_uint_base0_digits parse_u32_digits_with_go_underscores scan_bytes
    scan_byte digit_of accumulate scan_finish
too_large = refl

parse_u32_base0-read_example : parse_u32_base0 mark ≡ read_base0 (go_parse_uint_base0_digits mark)
parse_u32_base0-read_example = parse_u32_base0-read mark

underscore_behind_prefix_example :
    (parse_u32_base0 (48 ∷ 120 ∷ 95 ∷ 49 ∷ []) ≡ err syntax)
    × (parse_u32_base0 (48 ∷ 95 ∷ 49 ∷ []) ≡ err syntax)
underscore_behind_prefix_example = underscore_behind_prefix 120 (49 ∷ []) (inl refl)
