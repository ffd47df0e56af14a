-- ===== src/Session.antt =====
-- Both directions of a byte stream (tokio's `AsyncRead` and `AsyncWrite`, quinn's streams), for the
-- code that reads and writes it in order: the bytes that the peer sends until it ends the stream or
-- the connection is lost, and the bytes that were written to it. Writes succeed.
pub mod Laws
use zuicity.Prelude.{
  ℕ, zero, suc, List, [], ◌∷◌, ◌++◌, Option, none, some, length, Outcome, ok, err, panic,
}
use zuicity.Prelude.Bytes.{Bytes}

pub data Closing : Type 0 where
  finished lost : Closing

pub record Wire : Type 0 where
  pub input : Bytes
  pub closing : Closing
  pub output : Bytes

-- A call on a stream: its outcome, with the stream that it leaves.
abbrev pub Session {ℓ} : (E : Type 0) (A : Type ℓ) → Type ℓ
Session E A = Wire → Outcome E A × Wire

abbrev pub after {ℓ κ} :
    {E : Type 0} {A : Type ℓ} {B : Type κ}
    → Outcome E A × Wire
    → (A → Session E B)
    → Outcome E B × Wire
after (ok a, w) f = f a w
after (err e, w) f = (err e, w)
after (panic, w) f = (panic, w)

infixl 5 ◌>>=◌ ◌>>◌
abbrev pub ◌>>=◌ {ℓ κ} :
    {E : Type 0} {A : Type ℓ} {B : Type κ} → Session E A → (A → Session E B) → Session E B
(m >>= f) w = after (m w) f

abbrev pub ◌>>◌ {ℓ κ} :
    {E : Type 0} {A : Type ℓ} {B : Type κ} → Session E A → Session E B → Session E B
(m >> k) w = after (m w) (λ _. k)

abbrev pub return {ℓ} : {E : Type 0} {A : Type ℓ} → A → Session E A
return a w = (ok a, w)

abbrev pub fail {ℓ} : {E : Type 0} {A : Type ℓ} → E → Session E A
fail e w = (err e, w)

-- A call that does not touch the stream.
abbrev pub pure {ℓ} : {E : Type 0} {A : Type ℓ} → Outcome E A → Session E A
pure o w = (o, w)

-- The first `n` bytes and the others, where there are as many.
abbrev pub cons_first : ℕ → Option (Bytes × Bytes) → Option (Bytes × Bytes)
cons_first b none = none
cons_first b (some (xs, ys)) = some (b ∷ xs, ys)

abbrev pub split_exact : ℕ → Bytes → Option (Bytes × Bytes)
split_exact zero bytes = some ([], bytes)
split_exact (suc n) [] = none
split_exact (suc n) (b ∷ bytes) = cons_first b (split_exact n bytes)

-- `read_exact`: on a short stream the bytes are gone, and the error is told how the stream ended
-- and how many bytes there were.
abbrev pub taken :
    {E : Type 0} → (Closing → ℕ → E) → Wire → Option (Bytes × Bytes) → Outcome E Bytes × Wire
taken short w none = (err (short w.closing (length w.input)), record w { input = [] })
taken short w (some (xs, ys)) = (ok xs, record w { input = ys })

abbrev pub read_exact : {E : Type 0} → (Closing → ℕ → E) → ℕ → Session E Bytes
read_exact short n w = taken short w (split_exact n w.input)

-- `write_all`
abbrev pub write_all : {E : Type 0} → Bytes → Session E (Unit {0})
write_all bytes w = (ok tt, record w { output = w.output ++ bytes })
