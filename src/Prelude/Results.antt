-- ===== src/Prelude/Results.antt =====
-- What a call of the program does: it returns `Ok`, returns `Err`, or panics (an index or a slice
-- out of range, `expect` on a missing value).
pub data Outcome {ℓ} (E : Type 0) (A : Type ℓ) : Type ℓ where
  panic : Outcome E A
  err : E → Outcome E A
  ok : A → Outcome E A

-- `?`: only a value goes on.
infixl 5 ◌>>=◌
abbrev pub ◌>>=◌ {κ ℓ} :
    {A : Type κ} {E : Type 0} {C : Type ℓ} → Outcome E A → (A → Outcome E C) → Outcome E C
panic >>= next = panic
err cause >>= next = err cause
ok value >>= next = next value

infixl 5 ◌>>◌
abbrev pub ◌>>◌ {κ ℓ} :
    {A : Type κ} {E : Type 0} {C : Type ℓ} → Outcome E A → Outcome E C → Outcome E C
first >> second = first >>= λ _. second
