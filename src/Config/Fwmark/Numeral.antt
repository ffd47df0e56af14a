-- ===== src/Config/Fwmark/Numeral.antt =====
-- What the firewall mark parser accepts: a grammar over digits and underscores, and the value of the
-- digits without a bound, of which the parser reports the range only at the end.
use zuicity.Prelude.{
  ℕ, zero, suc, ◌⊎◌, ◌+◌, ◌*◌, ◌≤◌, ◌<◌, ◌≡◌, refl, sym, ap, ◌∙◌, subst, List, [], ◌∷◌, Bool, true,
  false, not, ◌||◌, Option, none, some, ◌==◌, ltb, leb, if◌then◌else◌, Outcome, ok, err, ◌>>=◌,
  arith,
}
use zuicity.Prelude.Bytes.{Bytes}
use zuicity.Config.Fwmark.{
  FwmarkParseErrorKind, syntax, range, underscore, digit_of, u32_max, Scan, accumulate, kept,
  plus_digit, checked_mul, scan_byte, scan_bytes, scan_start, scan_finish,
  parse_u32_digits_with_go_underscores, parse_u32_base0, go_parse_uint_base0_digits,
}

abbrev with_digit : ℕ → Option (List ℕ) → Option (List ℕ)
with_digit d none = none
with_digit d (some ds) = some (d ∷ ds)

-- The digits of a numeral: at least one, an underscore only between two of them. The Boolean tells
-- whether a digit stands directly before.
unfoldable pub numeral : ℕ → Bool → Bytes → Option (List ℕ)
numeral radix true [] = some []
numeral radix false [] = none
numeral radix behind_digit (b ∷ bytes) =
    let behind_underscore = numeral radix false bytes in
    let behind = numeral radix true bytes in
    if b == underscore
    then (if behind_digit then behind_underscore else none)
    else elim (digit_of b) [
      | none ↦ none
      | some d ↦ if leb radix d then none else with_digit d behind
    ]

-- The number that digits continue, from the most significant on.
abbrev pub horner : ℕ → ℕ → List ℕ → ℕ
horner radix w [] = w
horner radix w (d ∷ ds) = horner radix (w * radix + d) ds

abbrev pub judged : ℕ → Option (List ℕ) → ℕ → Outcome FwmarkParseErrorKind ℕ
judged radix none w = err syntax
judged radix (some ds) w =
    if ltb u32_max (horner radix w ds) then err range else ok (horner radix w ds)

mul_grows : (w r : ℕ) → 0 < r → w ≤ w * r
mul_grows w zero h = absurd (omega arith)
mul_grows w (suc r) h = omega arith

horner_grows : (radix w : ℕ) (ds : List ℕ) → 0 < radix → w ≤ horner radix w ds
horner_grows radix w [] h = omega arith
horner_grows radix w (d ∷ ds) h =
    omega (arith, mul_grows w radix h, horner_grows radix (w * radix + d) ds h)

-- The loop's variables stand for the unbounded value `w`.
pub record Stands (s : Scan) (w : ℕ) : Type 0 where
  pub exact : s.overflowed ≡ false → (s.value ≡ w) × (w ≤ u32_max)
  pub over : s.overflowed ≡ true → u32_max < w
  pub seen : s.previous_was_digit ≡ true → s.seen_digit ≡ true

abbrev ExactOrOver : ℕ × Bool → ℕ → Type 0
ExactOrOver p w = (p.1 ≡ false → (p.0 ≡ w) × (w ≤ u32_max)) × (p.1 ≡ true → u32_max < w)

kept-Exact :
    (v radix d : ℕ)
    → v ≤ u32_max
    → ExactOrOver (kept v (plus_digit (checked_mul v radix) d)) (v * radix + d)
kept-Exact v radix d h = (λ e. ground (arith, e), λ e. ground (arith, e))

next-Exact :
    (overflowed : Bool) (v w radix d : ℕ)
    → 0 < radix
    → (overflowed ≡ false → (v ≡ w) × (w ≤ u32_max))
    → (overflowed ≡ true → u32_max < w)
    → ExactOrOver
        (if overflowed then (v, true) else kept v (plus_digit (checked_mul v radix) d))
        (w * radix + d)
next-Exact true v w radix d p f g =
    let h = g refl in (λ e. absurd (ground (arith, e)), λ e. omega (arith, mul_grows w radix p))
next-Exact false v w radix d p f g =
    let (same, h) = f refl in
    subst (λ u. ExactOrOver (kept v (plus_digit (checked_mul v radix) d)) (u * radix + d)) same
      (kept-Exact v radix d (omega arith))

accumulate-Stands :
    (radix d w : ℕ) (s : Scan)
    → 0 < radix
    → Stands s w
    → Stands (accumulate radix d s) (w * radix + d)
unfolding accumulate
accumulate-Stands radix d w s h r =
    let (exact, over) = next-Exact s.overflowed s.value w radix d h r.exact r.over in
    record { exact = exact; over = over; seen = λ e. refl }

finish_tested :
    (radix w v : ℕ) (seen previous overflowed : Bool)
    → (overflowed ≡ false → (v ≡ w) × (w ≤ u32_max))
    → (overflowed ≡ true → u32_max < w)
    → (previous ≡ true → seen ≡ true)
    → ◌≡◌ {A = Outcome FwmarkParseErrorKind ℕ}
        (if not seen || not previous then err syntax else if overflowed then err range else ok v)
        (judged radix (numeral radix previous []) w)
unfolding numeral
finish_tested radix w v true true true f g h = ground (arith, g refl)
finish_tested radix w v true true false f g h = ground (arith, f refl)
finish_tested radix w v true false overflowed f g h = refl
finish_tested radix w v false true overflowed f g h = absurd (ground (arith, h refl))
finish_tested radix w v false false overflowed f g h = refl

judged-with_digit :
    (radix d w : ℕ) (ds : Option (List ℕ))
    → judged radix ds (w * radix + d) ≡ judged radix (with_digit d ds) w
judged-with_digit radix d w none = refl
judged-with_digit radix d w (some ds) = refl

-- What the loop returns from one state on.
abbrev ends_in : ℕ → Bytes → Outcome FwmarkParseErrorKind Scan → Outcome FwmarkParseErrorKind ℕ
ends_in radix bytes r = (r >>= λ s. scan_bytes radix s bytes) >>= scan_finish

digit_judged :
    (radix d w : ℕ) (s : Scan) (bytes : Bytes) (large : Bool)
    → ends_in radix bytes (ok (accumulate radix d s))
      ≡ judged radix (numeral radix true bytes) (w * radix + d)
    → ends_in radix bytes (if large then err syntax else ok (accumulate radix d s))
      ≡ judged radix (if large then none else with_digit d (numeral radix true bytes)) w
digit_judged radix d w s bytes true e = refl
digit_judged radix d w s bytes false e = e ∙ judged-with_digit radix d w (numeral radix true bytes)

byte_judged :
    (radix w : ℕ) (s : Scan) (bytes : Bytes) (is_underscore previous : Bool) (digit : Option ℕ)
    → ends_in radix bytes (ok (record s { previous_was_digit = false }))
      ≡ judged radix (numeral radix false bytes) w
    → ((d : ℕ)
        → ends_in radix bytes (ok (accumulate radix d s))
          ≡ judged radix (numeral radix true bytes) (w * radix + d))
    → ends_in radix bytes (
        if is_underscore
        then (if previous then ok (record s { previous_was_digit = false }) else err syntax)
        else elim digit [
          | none ↦ err syntax
          | some d ↦ if leb radix d then err syntax else ok (accumulate radix d s)
        ])
      ≡ judged radix
          (if is_underscore
            then (if previous then numeral radix false bytes else none)
            else elim digit [
              | none ↦ none
              | some d ↦ if leb radix d then none else with_digit d (numeral radix true bytes)
            ])
          w
byte_judged radix w s bytes true true digit u f = u
byte_judged radix w s bytes true false digit u f = refl
byte_judged radix w s bytes false previous none u f = refl
byte_judged radix w s bytes false previous (some d) u f =
    digit_judged radix d w s bytes (leb radix d) (f d)

numeral-step :
    (radix : ℕ) (previous : Bool) (b : ℕ) (bytes : Bytes)
    → numeral radix previous (b ∷ bytes) ≡ (
        if b == underscore
        then (if previous then numeral radix false bytes else none)
        else elim (digit_of b) [
          | none ↦ none
          | some d ↦ if leb radix d then none else with_digit d (numeral radix true bytes)
        ])
unfolding numeral
numeral-step radix true b bytes = refl
numeral-step radix false b bytes = refl

-- From any state, the parser judges what the rest of the bytes continue.
scan-judged :
    (radix w : ℕ) (s : Scan) (bytes : Bytes)
    → 0 < radix
    → Stands s w
    → (scan_bytes radix s bytes >>= scan_finish)
      ≡ judged radix (numeral radix s.previous_was_digit bytes) w
unfolding scan_bytes scan_byte scan_finish accumulate
scan-judged radix w s [] h r =
    finish_tested radix w s.value s.seen_digit s.previous_was_digit s.overflowed r.exact r.over
      r.seen
scan-judged radix w s (b ∷ bytes) h r =
    byte_judged radix w s bytes (b == underscore) s.previous_was_digit (digit_of b)
      (scan-judged radix w (record s { previous_was_digit = false }) bytes h
        (record { exact = r.exact; over = r.over; seen = λ e. absurd (ground (arith, e)) }))
      (λ d.
        scan-judged radix (w * radix + d) (accumulate radix d s) bytes h
          (accumulate-Stands radix d w s h r))
    ∙ ap (λ ds. judged radix ds w) (sym (numeral-step radix s.previous_was_digit b bytes))

start-Stands : Stands scan_start 0
start-Stands = record {
  exact = λ e. (refl, omega arith);
  over = λ e. absurd (ground (arith, e));
  seen = λ e. absurd (ground (arith, e));
}

parse-judged :
    (digits : Bytes) (radix : ℕ)
    → 0 < radix
    → parse_u32_digits_with_go_underscores digits radix
      ≡ judged radix (numeral radix false digits) 0
unfolding parse_u32_digits_with_go_underscores
parse-judged digits radix h = scan-judged radix 0 scan_start digits h start-Stands

base-positive :
    (value digits : Bytes) (radix : ℕ)
    → go_parse_uint_base0_digits value ≡ some (digits, radix)
    → 0 < radix
unfolding go_parse_uint_base0_digits
base-positive [] digits radix e = absurd (ground (arith, e))
base-positive (a ∷ []) digits radix e = ground (arith, e)
base-positive (a ∷ b ∷ rest) digits radix e = ground (arith, e)

-- The reading of a value by its prefix and the grammar.
abbrev pub read_base0 : Option (Bytes × ℕ) → Outcome FwmarkParseErrorKind ℕ
read_base0 none = err syntax
read_base0 (some (digits, radix)) = judged radix (numeral radix false digits) 0

parsed_base0 :
    (value : Bytes) (r : Option (Bytes × ℕ))
    → go_parse_uint_base0_digits value ≡ r
    → ◌≡◌ {A = Outcome FwmarkParseErrorKind ℕ}
        (elim r [
          | none ↦ err syntax
          | some (digits, radix) ↦ parse_u32_digits_with_go_underscores digits radix
        ])
        (read_base0 r)
parsed_base0 value none e = refl
parsed_base0 value (some (digits, radix)) e =
    parse-judged digits radix (base-positive value digits radix e)

-- Every string is read by its prefix and the grammar: a syntax error exactly where what follows the
-- prefix is no numeral of the base, else the exact value of the digits, or a range error where
-- that exceeds a `u32`. The bounded arithmetic of the loop never shows.
pub parse_u32_base0-read :
    (value : Bytes) → parse_u32_base0 value ≡ read_base0 (go_parse_uint_base0_digits value)
unfolding parse_u32_base0
parse_u32_base0-read value = parsed_base0 value (go_parse_uint_base0_digits value) refl

abbrev pub IsBaseLetter : ℕ → Type 0
IsBaseLetter b = (b ≡ 120) ⊎ ((b ≡ 88) ⊎ ((b ≡ 98) ⊎ ((b ≡ 66) ⊎ ((b ≡ 111) ⊎ (b ≡ 79)))))

-- An underscore directly behind a base prefix is a syntax error, whatever follows: behind `0x`, `0b`
-- and `0o`, in either case, and behind a single `0`.
pub underscore_behind_prefix :
    (b : ℕ) (rest : Bytes)
    → IsBaseLetter b
    → (parse_u32_base0 (48 ∷ b ∷ underscore ∷ rest) ≡ err syntax)
      × (parse_u32_base0 (48 ∷ underscore ∷ rest) ≡ err syntax)
unfolding parse_u32_base0 go_parse_uint_base0_digits parse_u32_digits_with_go_underscores scan_bytes
    scan_byte
underscore_behind_prefix b rest h = (ground (arith, h), refl)
