-- ===== src/Prelude/Xor.antt =====
-- Exclusive or of machine words: masking twice gives the word back, and a mask of `k` bits keeps
-- the word within `k` bits.
use native.Mathlib.Omega.{arith}
use mathlib.Core.Path.{◌≡◌, refl, sym, ap, ◌∙◌}
use Prim.Native.Nat.{
  zero, suc, ℕ, ◌+◌, ◌*◌, ◌/◌, ◌%◌, ◌≤◌, ◌<◌, bit_xor, digits, differ, bit_xor-bitwise,
}

abbrev xor_digits : ℕ → ℕ → ℕ → ℕ
xor_digits fuel a b = digits (λ y. y) differ fuel a b

-- More fuel than the first word has digits changes nothing.
digits-fuel : (m n a b : ℕ) → a ≤ m → a ≤ n → xor_digits m a b ≡ xor_digits n a b
digits-fuel zero zero a b h k = refl
digits-fuel zero (suc n) zero b h k = refl
digits-fuel (suc m) zero zero b h k = refl
digits-fuel (suc m) (suc n) zero b h k = refl
digits-fuel zero n (suc a) b h k = absurd (omega arith)
digits-fuel (suc m) zero (suc a) b h k = absurd (omega arith)
digits-fuel (suc m) (suc n) (suc a) b h k =
    ap (λ q. q * 2 + differ (suc a % 2) (b % 2))
      (digits-fuel m n (suc a / 2) (b / 2) (omega arith) (omega arith))

xor_zero : (b : ℕ) → bit_xor 0 b ≡ b
xor_zero b = bit_xor-bitwise 0 b

differ_zero : (y : ℕ) → differ 0 y ≡ y
differ_zero y = refl

xor_step : (a b : ℕ) → bit_xor a b ≡ bit_xor (a / 2) (b / 2) * 2 + differ (a % 2) (b % 2)
xor_step zero b = omega (arith, xor_zero b, xor_zero (b / 2), differ_zero (b % 2))
xor_step (suc a) b =
    bit_xor-bitwise (suc a) b
    ∙ ap (λ q. q * 2 + differ (suc a % 2) (b % 2))
        (digits-fuel a (suc a / 2) (suc a / 2) (b / 2) (omega arith) (omega arith)
          ∙ sym (bit_xor-bitwise (suc a / 2) (b / 2)))

-- Two digits.
differ-lt : (x y : ℕ) → x < 2 → y < 2 → differ x y < 2
differ-lt zero y h k = k
differ-lt (suc zero) zero h k = omega arith
differ-lt (suc zero) (suc zero) h k = omega arith
differ-lt (suc zero) (suc (suc y)) h k = absurd (omega arith)
differ-lt (suc (suc x)) y h k = absurd (omega arith)

differ_twice : (x y : ℕ) → x < 2 → y < 2 → differ (differ x y) y ≡ x
differ_twice zero zero h k = refl
differ_twice zero (suc zero) h k = refl
differ_twice (suc zero) zero h k = refl
differ_twice (suc zero) (suc zero) h k = refl
differ_twice x (suc (suc y)) h k = absurd (omega arith)
differ_twice (suc (suc x)) y h k = absurd (omega arith)

twice_fuel : (n a b : ℕ) → a ≤ n → b ≤ n → bit_xor (bit_xor a b) b ≡ a
twice_fuel zero zero b h k = omega (
  arith,
  xor_zero b,
  ap (λ w. bit_xor w b) (xor_zero b),
  ap (λ w. bit_xor w w) (zero_of b (omega arith)),
)
  where
    zero_of : (b : ℕ) → b ≤ 0 → b ≡ 0
    zero_of b h = omega arith
twice_fuel zero (suc a) b h k = absurd (omega arith)
twice_fuel (suc n) a b h k =
    let x = bit_xor (a / 2) (b / 2) in
    let d = differ (a % 2) (b % 2) in
    let d2 : d < 2 = differ-lt (a % 2) (b % 2) (omega arith) (omega arith) in
    xor_step (bit_xor a b) b
    ∙ ap (λ w. bit_xor (w / 2) (b / 2) * 2 + differ (w % 2) (b % 2)) (xor_step a b)
    ∙ halves x d (b / 2) (b % 2) d2
    ∙ ap (λ w. w * 2 + differ d (b % 2)) (twice_fuel n (a / 2) (b / 2) (omega arith) (omega arith))
    ∙ whole (a / 2) (differ_twice (a % 2) (b % 2) (omega arith) (omega arith))
  where
    halves :
        (x d c e : ℕ)
        → d < 2
        → bit_xor ((x * 2 + d) / 2) c * 2 + differ ((x * 2 + d) % 2) e
          ≡ bit_xor x c * 2 + differ d e
    halves x d c e l =
        ap (λ w. bit_xor w c * 2 + differ ((x * 2 + d) % 2) e) (omega arith)
        ∙ ap (λ w. bit_xor x c * 2 + differ w e) (omega arith)

    whole :
        (q : ℕ)
        → differ (differ (a % 2) (b % 2)) (b % 2) ≡ a % 2
        → a / 2 * 2 + differ (differ (a % 2) (b % 2)) (b % 2) ≡ a
    whole q e = omega (arith, e)

-- Masking twice gives the word back.
pub xor_twice : (a b : ℕ) → bit_xor (bit_xor a b) b ≡ a
xor_twice a b = twice_fuel (a + b) a b (omega arith) (omega arith)

abbrev pub power_of_two : ℕ → ℕ
power_of_two zero = 1
power_of_two (suc k) = power_of_two k * 2

pub xor-lt : (k a b : ℕ) → a < power_of_two k → b < power_of_two k → bit_xor a b < power_of_two k
xor-lt zero a b h l = omega (arith, xor_small a b h l)
  where
    xor_small : (a b : ℕ) → a < 1 → b < 1 → bit_xor a b ≡ 0
    xor_small a b h l = ap (λ w. bit_xor w b) (omega arith) ∙ xor_zero b ∙ omega arith
xor-lt (suc k) a b h l = omega (
  arith,
  xor_step a b,
  xor-lt k (a / 2) (b / 2) (omega arith) (omega arith),
  differ-lt (a % 2) (b % 2) (omega arith) (omega arith),
)
