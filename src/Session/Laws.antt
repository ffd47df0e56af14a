-- ===== src/Session/Laws.antt =====
-- What a read leaves of a stream.
use zuicity.Prelude.{
  ℕ, zero, suc, ◌≡◌, ◌≢◌, refl, sym, ap, ◌∙◌, [], ◌∷◌, ◌++◌, Option, none, some, arith, length,
  Outcome, ok, err, panic,
}
use zuicity.Prelude.Bytes.{Bytes}
use zuicity.Session.{Closing, Wire, Session, after, split_exact, cons_first, taken, read_exact}

pub split_exact-append : (xs ys : Bytes) → split_exact (length xs) (xs ++ ys) ≡ some (xs, ys)
split_exact-append [] ys = refl
split_exact-append (x ∷ xs) ys = ap (cons_first x) (split_exact-append xs ys)

cons_first-some :
    (n b : ℕ) (bytes xs ys : Bytes) (o : Option (Bytes × Bytes))
    → ((us vs : Bytes) → o ≡ some (us, vs) → (bytes ≡ us ++ vs) × (length us ≡ n))
    → cons_first b o ≡ some (xs, ys)
    → (b ∷ bytes ≡ xs ++ ys) × (length xs ≡ suc n)
cons_first-some n b bytes xs ys none f c = absurd (ground (arith, c))
cons_first-some n b bytes xs ys (some (us, vs)) f c =
    let (whole, size) = f us vs refl in (ground (arith, whole, c), ground (arith, size, c))

-- What a read gives is the front of the stream, as long as it was asked for.
pub split_exact-some :
    (n : ℕ) (bytes xs ys : Bytes)
    → split_exact n bytes ≡ some (xs, ys)
    → (bytes ≡ xs ++ ys) × (length xs ≡ n)
split_exact-some zero bytes xs ys e = (ground (arith, e), ground (arith, e))
split_exact-some (suc n) [] xs ys e = absurd (ground (arith, e))
split_exact-some (suc n) (b ∷ bytes) xs ys e =
    cons_first-some n b bytes xs ys (split_exact n bytes)
      (λ us vs q. split_exact-some n bytes us vs q) e

-- A stream that starts with as many bytes gives them, and keeps the others.
pub read_exact-append :
    {E : Type 0} (short : Closing → ℕ → E) (n : ℕ) (xs ys output : Bytes) (closing : Closing)
    → length xs ≡ n
    → read_exact short n (record { input = xs ++ ys; closing = closing; output = output })
      ≡ (ok xs, record { input = ys; closing = closing; output = output })
read_exact-append short n xs ys output closing e =
    ap
      (λ k.
        taken short (record { input = xs ++ ys; closing = closing; output = output })
          (split_exact k (xs ++ ys)))
      (sym e)
    ∙ ap (taken short (record { input = xs ++ ys; closing = closing; output = output }))
        (split_exact-append xs ys)

-- A call that returns a value had one from its first part.
pub after-eq-ok {ℓ κ} :
    {E : Type 0} {A : Type ℓ} {B : Type κ} (r : Outcome E A × Wire) (f : A → Session E B) (b : B)
    (w : Wire)
    → after r f ≡ (ok b, w)
    → (a : A) × (v : Wire) × (r ≡ (ok a, v)) × (f a v ≡ (ok b, w))
after-eq-ok (ok a, v) f b w e = (a, v, refl, e)
after-eq-ok (err x, v) f b w e = absurd (ground (arith, e))
after-eq-ok (panic, v) f b w e = absurd (ground (arith, e))

pub after-ne-panic {ℓ κ} :
    {E : Type 0} {A : Type ℓ} {B : Type κ} (r : Outcome E A × Wire) (f : A → Session E B)
    → r.0 ≢ panic
    → ((a : A) (w : Wire) → r ≡ (ok a, w) → (f a w).0 ≢ panic)
    → (after r f).0 ≢ panic
after-ne-panic (ok a, w) f n k = k a w refl
after-ne-panic (err e, w) f n k = ground arith
after-ne-panic (panic, w) f n k = absurd (n refl)

-- The stream `w` with more bytes in front of its input.
abbrev pub before : Bytes → Wire → Wire
before bytes w = record w { input = bytes ++ w.input }

pub read_exact-before :
    {E : Type 0} (short : Closing → ℕ → E) (n : ℕ) (xs : Bytes) (w : Wire)
    → length xs ≡ n
    → read_exact short n (before xs w) ≡ (ok xs, w)
read_exact-before short n xs w h = read_exact-append short n xs w.input w.output w.closing h

-- The stream `w` held the bytes `xs`, which were read, before those of `w'`.
abbrev pub ReadOff : ℕ → Bytes → Wire → Wire → Type 0
ReadOff n xs w w' = (w ≡ before xs w') × (length xs ≡ n)

read_exact-cases :
    {E : Type 0} (short : Closing → ℕ → E) (n : ℕ) (xs : Bytes) (w w' : Wire)
    (o : Option (Bytes × Bytes))
    → split_exact n w.input ≡ o
    → taken short w o ≡ (ok xs, w')
    → ReadOff n xs w w'
read_exact-cases short n xs w w' none q e = absurd (ground (arith, e))
read_exact-cases short n xs w w' (some (us, vs)) q e =
    let s = split_exact-some n w.input us vs q in ground (arith, e, s.0, s.1)

pub read_exact-eq-ok :
    {E : Type 0} (short : Closing → ℕ → E) (n : ℕ) (xs : Bytes) (w w' : Wire)
    → read_exact short n w ≡ (ok xs, w')
    → ReadOff n xs w w'
read_exact-eq-ok short n xs w w' e = read_exact-cases short n xs w w' (split_exact n w.input) refl e

taken-ne-panic :
    {E : Type 0} (short : Closing → ℕ → E) (w : Wire) (o : Option (Bytes × Bytes))
    → (taken short w o).0 ≢ panic
taken-ne-panic short w none = ground arith
taken-ne-panic short w (some (xs, ys)) = ground arith

pub read_exact-ne-panic :
    {E : Type 0} (short : Closing → ℕ → E) (n : ℕ) (w : Wire) → (read_exact short n w).0 ≢ panic
read_exact-ne-panic short n w = taken-ne-panic short w (split_exact n w.input)
