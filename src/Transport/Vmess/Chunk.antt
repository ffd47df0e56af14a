-- ===== src/Transport/Vmess/Chunk.antt =====
-- A chunk of one side's context under the other side's, which is in the same state.
use zuicity.Prelude.{
  ℕ, zero, suc, ◌+◌, ◌-◌, ◌≤◌, ◌<◌, ◌≡◌, refl, sym, ap, ◌∙◌, [], ◌++◌, append_assoc, append-nil,
  false, ltb, if◌then◌else◌, arith, length, length-append, take-append, get_or, some, Outcome, ok,
  err,
}
use Prim.Native.Nat.{bit_xor}
use zuicity.Prelude.Bytes.{Bytes, from_be_u16, to_be_u16}
use zuicity.Prelude.Xor.{xor_twice, xor-lt}
use zuicity.Session.{Wire, after}
use zuicity.Session.Laws.{before, read_exact-before}
use zuicity.Transport.Defs.{TransportError, vmess_proxy, chunk_exceeds_u16}
use zuicity.Transport.Vmess.{
  Aead, Xof, VmessBodyContext, vmess_short, nonce_of, nonce_taken, mask_taken, next_mask,
  padding_len, encode_size, decode_size, pad_chunk, sealed_chunk, encode_chunk, decode_chunk,
  read_body,
}

-- The random source gives as many bytes as it is asked for.
abbrev pub Fills : (ℕ → Outcome TransportError Bytes) → Type 0
Fills fill_random = (k : ℕ) → (b : Bytes) × (fill_random k ≡ ok b) × (length b ≡ k)

module _ (cipher : Aead) (xof : Xof) where
  mask-lt : (c : VmessBodyContext) → next_mask cipher xof c < 65536
  mask-lt c = omega (arith, xof.bounded c.read, xof.bounded (c.read + 1))

  decode_size-encode_size :
      (size : ℕ) (c : VmessBodyContext)
      → size < 65536
      → decode_size cipher xof (encode_size cipher xof size c) c ≡ size
  decode_size-encode_size size c h =
      let m = next_mask cipher xof c in
      let k : bit_xor size m < 65536 = xor-lt 16 size m h (mask-lt c) in
      ap (λ v. bit_xor v m) (from_to (bit_xor size m) k) ∙ xor_twice size m
    where
      from_to :
          (v : ℕ)
          → v < 65536
          → from_be_u16 (get_or (to_be_u16 v) 0 0) (get_or (to_be_u16 v) 1 0) ≡ v
      from_to v k = omega arith

  pad_chunk-ok :
      (chunk : Bytes) (padding : ℕ) (fill_random : ℕ → Outcome TransportError Bytes)
      (c : VmessBodyContext)
      → Fills fill_random
      → (random : Bytes) × (pad_chunk cipher xof chunk padding fill_random c
          ≡ ok (chunk ++ random, c))
        × (length random ≡ padding)
  pad_chunk-ok chunk zero fill_random c f = (
    [],
    ap (λ (b : Bytes). let o : Outcome TransportError (Bytes × VmessBodyContext) = ok (b, c) in o)
        (sym (append-nil chunk)),
    refl,
  )
  pad_chunk-ok chunk (suc padding) fill_random c f =
      let (random, e, l) = f (suc padding) in (random, ground (arith, e), l)

  decode_chunk-sealed :
      (payload sealed random : Bytes) (padding : ℕ) (c : VmessBodyContext)
      → length sealed ≡ length payload + 16
      → length random ≡ padding
      → cipher.decrypt (nonce_of c) sealed ≡ some payload
      → 1 ≤ length payload
      → decode_chunk cipher xof (sealed ++ random) padding c ≡ ok (payload, nonce_taken c)
  unfolding decode_chunk
  decode_chunk-sealed payload sealed random padding c l r d k = ground (
    arith,
    length-append sealed random,
    take-append (length (sealed ++ random) - padding) sealed random,
    l,
    r,
    d,
  )

  decode_chunk-empty :
      (sealed random : Bytes) (padding : ℕ) (c : VmessBodyContext)
      → length sealed ≡ 16
      → length random ≡ padding
      → decode_chunk cipher xof (sealed ++ random) padding c ≡ ok ([], c)
  unfolding decode_chunk
  decode_chunk-empty sealed random padding c l r = ground (
    arith,
    length-append sealed random,
    take-append (length (sealed ++ random) - padding) sealed random,
    l,
    r,
  )

  abbrev pub total_len : Bytes → VmessBodyContext → ℕ
  total_len payload c = length payload + 16 + padding_len cipher xof c

  abbrev pub size_bytes : Bytes → VmessBodyContext → Bytes
  size_bytes payload c = encode_size cipher xof (total_len payload c) (mask_taken cipher xof c)

  -- The context after a chunk, on both sides.
  abbrev pub after_chunk : VmessBodyContext → VmessBodyContext
  after_chunk c = mask_taken cipher xof (nonce_taken (mask_taken cipher xof c))

  -- The chunk of `payload`, and what the other side makes of its body.
  pub record Framed (fill_random : ℕ → Outcome TransportError Bytes) (payload : Bytes)
      (c : VmessBodyContext) : Type 0 where
    pub body : Bytes
    pub encoded :
        encode_chunk cipher xof fill_random payload c
        ≡ ok (size_bytes payload c ++ body, after_chunk c)
    pub body_len : length body ≡ total_len payload c
    pub decoded :
        1 ≤ length payload
        → decode_chunk cipher xof body
            (padding_len cipher xof c)
            (mask_taken cipher xof (mask_taken cipher xof c))
          ≡ ok (payload, after_chunk c)
    pub ended :
        length payload ≡ 0
        → decode_chunk cipher xof body
            (padding_len cipher xof c)
            (mask_taken cipher xof (mask_taken cipher xof c))
          ≡ ok ([], mask_taken cipher xof (mask_taken cipher xof c))

  total_len-le :
      (payload : Bytes) (c : VmessBodyContext)
      → length payload ≤ 16384
      → total_len payload c ≤ 65535
  total_len-le payload c h = omega arith

  encode_chunk-sealed :
      (fill_random : ℕ → Outcome TransportError Bytes) (payload sealed chunk : Bytes)
      (c : VmessBodyContext)
      → length payload ≤ 16384
      → cipher.encrypt (nonce_of c) payload ≡ some sealed
      → pad_chunk cipher xof
          (size_bytes payload c ++ sealed)
          (padding_len cipher xof c)
          fill_random
          (after_chunk c)
        ≡ ok (chunk, after_chunk c)
      → encode_chunk cipher xof fill_random payload c ≡ ok (chunk, after_chunk c)
  unfolding encode_chunk
  encode_chunk-sealed fill_random payload sealed chunk c h e p =
      ap
        (λ b.
          if b
          then err (vmess_proxy chunk_exceeds_u16)
          else sealed_chunk cipher xof (total_len payload c) (padding_len cipher xof c) fill_random
              (nonce_taken (mask_taken cipher xof c)) (cipher.encrypt (nonce_of c) payload))
        (small (total_len payload c) (total_len-le payload c h))
      ∙ ap
          (sealed_chunk cipher xof (total_len payload c) (padding_len cipher xof c) fill_random
            (nonce_taken (mask_taken cipher xof c)))
          e
      ∙ p
    where
      small : (n : ℕ) → n ≤ 65535 → ltb 65535 n ≡ false
      small n h = ground (arith, h)

  pub encode_chunk-Framed :
      (fill_random : ℕ → Outcome TransportError Bytes) (payload : Bytes) (c : VmessBodyContext)
      → Fills fill_random
      → length payload ≤ 16384
      → Framed fill_random payload c
  encode_chunk-Framed fill_random payload c f h =
      let (sealed, e, l, d) = cipher.seals (nonce_of c) payload (omega arith) in
      let (random, p, r) =
        pad_chunk-ok (size_bytes payload c ++ sealed) (padding_len cipher xof c) fill_random
          (after_chunk c) f in
      record {
        body = sealed ++ random;
        encoded =
            encode_chunk-sealed fill_random payload sealed
              ((size_bytes payload c ++ sealed) ++ random) c h e p
            ∙ ap
                (λ (b : Bytes).
                  let o : Outcome TransportError (Bytes × VmessBodyContext) =
                    ok (b, after_chunk c) in
                  o)
                (append_assoc (size_bytes payload c) sealed random);
        body_len = omega (arith, length-append sealed random, l, r);
        decoded = λ k.
            decode_chunk-sealed payload sealed random (padding_len cipher xof c)
              (mask_taken cipher xof (mask_taken cipher xof c)) l r d k;
        ended = λ k.
            decode_chunk-empty sealed random (padding_len cipher xof c)
              (mask_taken cipher xof (mask_taken cipher xof c)) (omega (arith, l, k)) r;
      }

  -- The other side reads the body of a chunk and nothing after it.
  pub read_body-Framed :
      (fill_random : ℕ → Outcome TransportError Bytes) (payload read : Bytes)
      (c d : VmessBodyContext) (w : Wire) (s : Framed fill_random payload c)
      → length payload ≤ 16384
      → decode_chunk cipher xof s.body
          (padding_len cipher xof c)
          (mask_taken cipher xof (mask_taken cipher xof c))
        ≡ ok (read, d)
      → read_body cipher xof c (size_bytes payload c) (before s.body w) ≡ (ok (read, d), w)
  read_body-Framed fill_random payload read c d w s h e =
      ap
        (λ r. after r (λ encrypted. λ u. (
          decode_chunk cipher xof encrypted (padding_len cipher xof c)
              (mask_taken cipher xof (mask_taken cipher xof c)),
          u,
        )))
        (read_exact-before vmess_short
          (decode_size cipher xof (size_bytes payload c) (mask_taken cipher xof c)) s.body w
          (s.body_len
            ∙ sym (
                decode_size-encode_size (total_len payload c) (mask_taken cipher xof c)
                  (omega (arith, total_len-le payload c h)))))
      ∙ ap
          (λ (o : Outcome TransportError (Bytes × VmessBodyContext)).
            let r : Outcome TransportError (Bytes × VmessBodyContext) × Wire = (o, w) in r)
          e
