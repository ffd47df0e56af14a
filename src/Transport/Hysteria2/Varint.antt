-- ===== src/Transport/Hysteria2/Varint.antt =====
-- `write_hysteria2_varint` and then `read_hysteria2_datagram_varint`.
use zuicity.Prelude.{
  ℕ, suc, ◌+◌, ◌-◌, ◌/◌, ◌%◌, ◌^◌, ◌≤◌, ◌≡◌, refl, sym, ap, ◌∙◌, [], ◌∷◌, ◌++◌, ltb, leb,
  if◌then◌else◌, length, get_or, arith, append_assoc, length-append, Outcome, ok, err, ◌>>=◌, true,
  false, leb→le, Bool,
}
use zuicity.Prelude.Bytes.{Bytes, index}
use zuicity.Transport.Hysteria2.{
  Hysteria2Error, exceeds_range, missing_varint, truncated_varint, or_40, or_80, or_c0, varint_max,
  byte_of, write_hysteria2_varint, shift_in, read_rest, read_behind, read_hysteria2_datagram_varint,
}

get_or-middle :
    (before : Bytes) (b : ℕ) (rest : Bytes) → get_or (before ++ b ∷ rest) (length before) 0 ≡ b
get_or-middle [] b rest = refl
get_or-middle (x ∷ before) b rest = get_or-middle before b rest

index-middle :
    (before : Bytes) (b : ℕ) (rest : Bytes)
    → ◌≡◌ {A = Outcome Hysteria2Error ℕ} (index (before ++ b ∷ rest) (length before)) (ok b)
unfolding index
index-middle before b rest =
    ground (arith, get_or-middle before b rest, length-append before (b ∷ rest))

abbrev pub shift_all : ℕ → Bytes → ℕ
shift_all v [] = v
shift_all v (b ∷ bs) = shift_all (shift_in v b) bs

read_rest-append :
    (before bs rest : Bytes) (v : ℕ)
    → read_rest (before ++ (bs ++ rest)) (length bs) (length before) v
      ≡ ok (shift_all v bs, length before + length bs)
unfolding read_rest
read_rest-append before [] rest v =
    ap (λ n. let o : Outcome Hysteria2Error (ℕ × ℕ) = ok (v, n) in o)
      (let e : length before ≡ length before + 0 = omega arith in e)
read_rest-append before (b ∷ bs) rest v =
    let all = before ++ (b ∷ (bs ++ rest)) in
    let n : length before + 1 ≡ length (before ++ (b ∷ [])) =
      omega (arith, length-append before (b ∷ [])) in
    let m : length (before ++ (b ∷ [])) + length bs ≡ length before + suc (length bs) =
      omega (arith, length-append before (b ∷ [])) in
    ap (λ r. r >>= λ byte. read_rest all (length bs) (length before + 1) (shift_in v byte))
      (index-middle before b (bs ++ rest))
    ∙ ap (λ d. read_rest d (length bs) (length before + 1) (shift_in v b))
        (sym (append_assoc before (b ∷ []) (bs ++ rest)))
    ∙ ap (λ k. read_rest ((before ++ (b ∷ [])) ++ (bs ++ rest)) (length bs) k (shift_in v b)) n
    ∙ read_rest-append (before ++ (b ∷ [])) bs rest (shift_in v b)
    ∙ ap (λ k. let o : Outcome Hysteria2Error (ℕ × ℕ) = ok (shift_all (shift_in v b) bs, k) in o) m

read_rest-behind :
    (before bs rest : Bytes) (f v : ℕ)
    → read_rest (before ++ (f ∷ (bs ++ rest))) (length bs) (length before + 1) v
      ≡ ok (shift_all v bs, length before + suc (length bs))
read_rest-behind before bs rest f v =
    let n : length before + 1 ≡ length (before ++ (f ∷ [])) =
      omega (arith, length-append before (f ∷ [])) in
    let m : length (before ++ (f ∷ [])) + length bs ≡ length before + suc (length bs) =
      omega (arith, length-append before (f ∷ [])) in
    ap (λ d. read_rest d (length bs) (length before + 1) v)
      (sym (append_assoc before (f ∷ []) (bs ++ rest)))
    ∙ ap (λ k. read_rest ((before ++ (f ∷ [])) ++ (bs ++ rest)) (length bs) k v) n
    ∙ read_rest-append (before ++ (f ∷ [])) bs rest v
    ∙ ap (λ k. let o : Outcome Hysteria2Error (ℕ × ℕ) = ok (shift_all v bs, k) in o) m

tagged-length :
    (before bs rest : Bytes) (f : ℕ)
    → length (before ++ (f ∷ (bs ++ rest))) ≡ length before + suc (length bs) + length rest
tagged-length before bs rest f =
    omega (arith, length-append before (f ∷ (bs ++ rest)), length-append bs rest)

behind-tagged :
    (before bs rest : Bytes) (f len : ℕ)
    → len ≡ suc (length bs)
    → (if ltb (length (before ++ (f ∷ (bs ++ rest)))) (length before + 1 + len - 1)
        then err truncated_varint
        else read_rest (before ++ (f ∷ (bs ++ rest))) (len - 1) (length before + 1) (f % 64))
      ≡ ok (shift_all (f % 64) bs, length before + suc (length bs))
behind-tagged before bs rest f len e =
    let m : len - 1 ≡ length bs = omega arith in
    let fits : ltb (length (before ++ (f ∷ (bs ++ rest)))) (length before + 1 + len - 1) ≡ false =
      ground (arith, tagged-length before bs rest f) in
    ap
      (λ t.
        if t
        then err truncated_varint
        else read_rest (before ++ (f ∷ (bs ++ rest))) (len - 1) (length before + 1) (f % 64))
      fits
    ∙ ap (λ n. read_rest (before ++ (f ∷ (bs ++ rest))) n (length before + 1) (f % 64)) m
    ∙ read_rest-behind before bs rest f (f % 64)

read-tagged :
    (before bs rest : Bytes) (f : ℕ)
    → 2 ^ (f / 64) ≡ suc (length bs)
    → read_hysteria2_datagram_varint (before ++ (f ∷ (bs ++ rest))) (length before)
      ≡ ok (shift_all (f % 64) bs, length before + suc (length bs))
unfolding read_hysteria2_datagram_varint read_behind
read-tagged before bs rest f e =
    let all = before ++ (f ∷ (bs ++ rest)) in
    let inside : ltb (length before) (length all) ≡ true =
      ground (arith, tagged-length before bs rest f) in
    ap
      (λ t.
        if t
        then read_behind all (length before + 1) (get_or all (length before) 0)
        else err missing_varint)
      inside
    ∙ ap (read_behind all (length before + 1)) (get_or-middle before f (bs ++ rest))
    ∙ behind-tagged before bs rest f (2 ^ (f / 64)) e

-- Bytes that are read as the value, wherever they stand.
abbrev pub Reads : ℕ → Bytes → Type 0
Reads value wire =
    (before rest : Bytes)
    → read_hysteria2_datagram_varint (before ++ (wire ++ rest)) (length before)
      ≡ ok (value, length before + length wire)

tagged-Reads :
    (value f tag : ℕ) (bs : Bytes)
    → f / 64 ≡ tag
    → 2 ^ tag ≡ suc (length bs)
    → shift_all (f % 64) bs ≡ value
    → Reads value (f ∷ bs)
tagged-Reads value f tag bs t e v before rest =
    read-tagged before bs rest f (ap (λ n. 2 ^ n) t ∙ e)
    ∙ ap
        (λ n. let o : Outcome Hysteria2Error (ℕ × ℕ) = ok (n, length before + suc (length bs)) in o)
        v

abbrev one_byte : ℕ → Bytes
one_byte v = v % 256 ∷ []

abbrev two_bytes : ℕ → Bytes
two_bytes v = or_40 (byte_of 1 v) ∷ byte_of 0 v ∷ []

abbrev four_bytes : ℕ → Bytes
four_bytes v = or_80 (byte_of 3 v) ∷ byte_of 2 v ∷ byte_of 1 v ∷ byte_of 0 v ∷ []

abbrev eight_bytes : ℕ → Bytes
eight_bytes v =
    or_c0 (byte_of 7 v)
    ∷ byte_of 6 v
    ∷ byte_of 5 v
    ∷ byte_of 4 v
    ∷ byte_of 3 v
    ∷ byte_of 2 v
    ∷ byte_of 1 v
    ∷ byte_of 0 v
    ∷ []

one_byte-Reads : (v : ℕ) → v ≤ 63 → Reads v (one_byte v)
one_byte-Reads v h = tagged-Reads v (v % 256) 0 [] (omega arith) refl (omega arith)

two_bytes-Reads : (v : ℕ) → v ≤ 16383 → Reads v (two_bytes v)
two_bytes-Reads v h =
    tagged-Reads v (or_40 (byte_of 1 v)) 1 (byte_of 0 v ∷ []) (omega arith) refl (omega arith)

four_bytes-Reads : (v : ℕ) → v ≤ 1073741823 → Reads v (four_bytes v)
four_bytes-Reads v h =
    tagged-Reads v (or_80 (byte_of 3 v)) 2 (byte_of 2 v ∷ byte_of 1 v ∷ byte_of 0 v ∷ [])
      (omega arith) refl (omega arith)

eight_bytes-Reads : (v : ℕ) → v ≤ varint_max → Reads v (eight_bytes v)
eight_bytes-Reads v h =
    tagged-Reads v (or_c0 (byte_of 7 v)) 3
      (byte_of 6 v
        ∷ byte_of 5 v
        ∷ byte_of 4 v
        ∷ byte_of 3 v
        ∷ byte_of 2 v
        ∷ byte_of 1 v
        ∷ byte_of 0 v
        ∷ [])
      (omega arith) refl (omega arith)

abbrev IsWritten : ℕ → Outcome Hysteria2Error (Unit {0}) × Bytes → Bytes → Type 0
IsWritten v w output =
    (wire : Bytes) × (w ≡ (ok tt, output ++ wire)) × (length wire ≤ 8) × Reads v wire

-- The branches of the writer, by the outcomes of its tests.
branch-IsWritten :
    (v : ℕ) (output : Bytes) (b63 b16383 b30 b62 : Bool)
    → (b63 ≡ true → v ≤ 63)
    → (b16383 ≡ true → v ≤ 16383)
    → (b30 ≡ true → v ≤ 1073741823)
    → (b62 ≡ true → v ≤ varint_max)
    → b62 ≡ true
    → IsWritten v
        (if b63
          then (ok tt, output ++ one_byte v)
          else if b16383
          then (ok tt, output ++ two_bytes v)
          else if b30
          then (ok tt, output ++ four_bytes v)
          else if b62
          then (ok tt, output ++ eight_bytes v)
          else (err (exceeds_range v), output))
        output
branch-IsWritten v output true b c d f g h k e =
    (one_byte v, refl, omega arith, one_byte-Reads v (f refl))
branch-IsWritten v output false true c d f g h k e =
    (two_bytes v, refl, omega arith, two_bytes-Reads v (g refl))
branch-IsWritten v output false false true d f g h k e =
    (four_bytes v, refl, omega arith, four_bytes-Reads v (h refl))
branch-IsWritten v output false false false true f g h k e =
    (eight_bytes v, refl, omega arith, eight_bytes-Reads v (k refl))
branch-IsWritten v output false false false false f g h k e = absurd (ground (arith, e))

-- A value within the range of 62 bits is written, behind what the buffer holds, in at most eight
-- bytes; and wherever these bytes stand in a datagram, and whatever follows them, the reader
-- returns the value and the offset behind them.
pub write_hysteria2_varint-Reads :
    (value : ℕ) (output : Bytes)
    → value ≤ varint_max
    → (wire : Bytes) × (write_hysteria2_varint value output ≡ (ok tt, output ++ wire))
      × (length wire ≤ 8)
      × Reads value wire
unfolding write_hysteria2_varint
write_hysteria2_varint-Reads value output h =
    branch-IsWritten value output (leb value 63) (leb value 16383) (leb value 1073741823)
      (leb value varint_max) (leb→le value 63) (leb→le value 16383) (leb→le value 1073741823)
      (leb→le value varint_max) (ground arith)
