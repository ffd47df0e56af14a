-- ===== src/Prelude/Bytes.antt =====
-- Byte slices: indexing and slicing as Rust does them, and big-endian fields.
use native.Mathlib.Omega.{arith}
use mathlib.Core.Path.{◌≡◌}
use Prim.Native.Nat.{zero, suc, ℕ, ◌+◌, ◌-◌, ◌*◌, ◌/◌, ◌%◌, ◌<◌}
use mathlib.Core.Bool.{◌&&◌}
use mathlib.Core.List.{List, [], ◌∷◌, ◌++◌}
use zuicity.Prelude.Tests.{ltb, leb, if◌then◌else◌}
use zuicity.Prelude.Lists.{length, get_or, take, drop}
use zuicity.Prelude.Results.{Outcome, ok, panic}

abbrev pub Bytes : Type 0
Bytes = List ℕ

abbrev pub concat : List Bytes → Bytes
concat [] = []
concat (c ∷ chunks) = c ++ concat chunks

-- Every element is a `u8`.
abbrev pub AreBytes : Bytes → Type 0
AreBytes [] = Unit
AreBytes (b ∷ bs) = (b < 256) × AreBytes bs

module _ {E : Type 0} where
  -- `input[i]`
  unfoldable pub index : Bytes → ℕ → Outcome E ℕ
  index input i = if ltb i (length input) then ok (get_or input i 0) else panic

  -- `&input[from..to]`
  unfoldable pub slice : Bytes → ℕ → ℕ → Outcome E Bytes
  slice input from to =
      if leb from to && leb to (length input)
      then ok (take (to - from) (drop from input))
      else panic

  -- `&input[from..]`
  unfoldable pub slice_from : Bytes → ℕ → Outcome E Bytes
  slice_from input from = if leb from (length input) then ok (drop from input) else panic

-- `u16::from_be_bytes([hi, lo])`
abbrev pub from_be_u16 : ℕ → ℕ → ℕ
from_be_u16 hi lo = hi * 256 + lo

-- `value.to_be_bytes()` of a u16
abbrev pub to_be_u16 : ℕ → Bytes
to_be_u16 value = (value / 256 % 256) ∷ (value % 256) ∷ []

pub AreBytes-append : (xs ys : Bytes) → AreBytes xs → AreBytes ys → AreBytes (xs ++ ys)
AreBytes-append [] ys v w = w
AreBytes-append (x ∷ xs) ys v w = (v.0, AreBytes-append xs ys v.1 w)

pub take-AreBytes : (n : ℕ) (xs : Bytes) → AreBytes xs → AreBytes (take n xs)
take-AreBytes zero xs v = tt
take-AreBytes (suc n) [] v = tt
take-AreBytes (suc n) (x ∷ xs) v = (v.0, take-AreBytes n xs v.1)

pub drop-AreBytes : (n : ℕ) (xs : Bytes) → AreBytes xs → AreBytes (drop n xs)
drop-AreBytes zero xs v = v
drop-AreBytes (suc n) [] v = tt
drop-AreBytes (suc n) (x ∷ xs) v = drop-AreBytes n xs v.1

pub get_or-lt : (xs : Bytes) (n : ℕ) → AreBytes xs → get_or xs n 0 < 256
get_or-lt [] n v = omega arith
get_or-lt (x ∷ xs) zero v = v.0
get_or-lt (x ∷ xs) (suc n) v = get_or-lt xs n v.1

-- A big-endian field is written back as the two bytes that it was read from.
pub to_be_u16-from_be_u16 :
    (hi lo : ℕ) → hi < 256 → lo < 256 → to_be_u16 (from_be_u16 hi lo) ≡ hi ∷ lo ∷ []
to_be_u16-from_be_u16 hi lo h l = ground arith

pub AreBytes-front : (xs ys : Bytes) → AreBytes (xs ++ ys) → AreBytes xs
AreBytes-front [] ys v = tt
AreBytes-front (x ∷ xs) ys v = (v.0, AreBytes-front xs ys v.1)

pub AreBytes-back : (xs ys : Bytes) → AreBytes (xs ++ ys) → AreBytes ys
AreBytes-back [] ys v = v
AreBytes-back (x ∷ xs) ys v = AreBytes-back xs ys v.1
