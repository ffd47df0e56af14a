-- ===== src/Transport/Vmess/Returns.antt =====
-- `copy_vmess_to_plain` on any input.
use zuicity.Prelude.{
  ℕ, zero, suc, ◌≤◌, ◌<◌, ◌≡◌, refl, ap, [], ◌∷◌, ◌++◌, arith, length, length-append, Option, none,
  some, Outcome, ok, err, panic,
}
use zuicity.Prelude.Bytes.{Bytes}
use zuicity.Session.{Wire, after, split_exact, taken, read_exact}
use zuicity.Session.Laws.{split_exact-some}
use zuicity.Transport.Defs.{TransportError}
use zuicity.Transport.Vmess.{
  Aead, Xof, vmess_short, decode_size, decode_chunk, padding_len, at_end, VmessBodyContext,
  body_turn, size_turn, copy_on, copy_vmess_to_plain, read_body, Copied, mask_taken,
}

module _ (cipher : Aead) (xof : Xof) where
  body_turn-some :
      (next : VmessBodyContext → Wire → Copied cipher xof)
      (r : Outcome TransportError (Bytes × VmessBodyContext) × Wire)
      → ((d : VmessBodyContext) (out : Bytes)
          → (x : Outcome TransportError (Unit {0}) × Wire) × (next d (record r.1 { output = out })
              ≡ some x))
      → (x : Outcome TransportError (Unit {0}) × Wire) × (body_turn cipher xof next r ≡ some x)
  body_turn-some next (ok ([], d), w) f = ((ok tt, w), refl)
  body_turn-some next (ok (b ∷ bs, d), w) f = f d (w.output ++ (b ∷ bs))
  body_turn-some next (err e, w) f = ((err e, w), refl)
  body_turn-some next (panic, w) f = ((panic, w), refl)

  taken-shorter :
      (n : ℕ) (w : Wire) (o : Option (Bytes × Bytes))
      → split_exact n w.input ≡ o
      → length (taken vmess_short w o).1.input ≤ length w.input
  taken-shorter n w none q = omega arith
  taken-shorter n w (some (xs, ys)) q =
      omega (arith, ap length (split_exact-some n w.input xs ys q).0, length-append xs ys)

  after-input :
      (r : Outcome TransportError Bytes × Wire)
      (f : Bytes → Outcome TransportError (Bytes × VmessBodyContext))
      → (after r (λ b. λ u. (f b, u))).1 ≡ r.1
  after-input (ok b, u) f = refl
  after-input (err e, u) f = refl
  after-input (panic, u) f = refl

  copy_on-some :
      (fuel : ℕ) (c : VmessBodyContext) (w : Wire)
      → length w.input < fuel
      → (x : Outcome TransportError (Unit {0}) × Wire) × (copy_on cipher xof fuel c w ≡ some x)
  copy_on-some zero c w k = absurd (omega (arith, k))
  copy_on-some (suc fuel) c w k =
      size_case (split_exact 2 w.input) refl (λ d v l. copy_on-some fuel d v l)
    where
      size_case :
          (o : Option (Bytes × Bytes))
          → split_exact 2 w.input ≡ o
          → ((d : VmessBodyContext) (v : Wire)
              → length v.input < fuel
              → (x : Outcome TransportError (Unit {0}) × Wire) × (copy_on cipher xof fuel d v
                  ≡ some x))
          → (x : Outcome TransportError (Unit {0}) × Wire) × (size_turn cipher xof
                (λ d. λ u. copy_on cipher xof fuel d u)
                c
                w
                o
              ≡ some x)
      size_case none q f = (at_end cipher xof w w.closing, refl)
      size_case (some (size, rest)) q f =
          let n = decode_size cipher xof size (mask_taken cipher xof c) in
          let u : Wire = record w { input = rest } in
          let p = split_exact-some 2 w.input size rest q in
          let i =
            ap (λ (v : Wire). length v.input)
              (after-input (read_exact vmess_short n u) (λ b.
                decode_chunk cipher xof b (padding_len cipher xof c)
                  (mask_taken cipher xof (mask_taken cipher xof c)))) in
          body_turn-some (λ d. λ u. copy_on cipher xof fuel d u) (read_body cipher xof c size u)
            (λ d out.
              f d (record (read_body cipher xof c size u).1 { output = out })
                (omega (
                  arith,
                  i,
                  taken-shorter n u (split_exact n rest) refl,
                  ap length p.0,
                  p.1,
                  length-append size rest,
                  k,
                )))

  -- The fuel is enough: the reader returns on every input.
  pub copy_vmess_to_plain-returns :
      (c : VmessBodyContext) (w : Wire)
      → (x : Outcome TransportError (Unit {0}) × Wire) × (copy_vmess_to_plain cipher xof c w
          ≡ some x)
  unfolding copy_vmess_to_plain
  copy_vmess_to_plain-returns c w = copy_on-some (suc (length w.input)) c w (omega arith)
