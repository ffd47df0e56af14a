-- ===== src/Transport/Vmess/Body.antt =====
-- A whole VMess stream, and one UDP packet of it, from one side to the other.
use zuicity.Prelude.{
  ℕ, zero, suc, ◌≤◌, ◌≡◌, refl, sym, ap, ◌∙◌, List, [], ◌∷◌, ◌++◌, map, append_assoc, append-nil,
  arith, length, length-append, some, Outcome, ok,
}
use zuicity.Prelude.Bytes.{Bytes, concat}
use zuicity.Session.{Wire, after}
use zuicity.Session.Laws.{before}
use zuicity.Transport.Defs.{TransportError}
use zuicity.Transport.Relay.{bytes}
use zuicity.Transport.Vmess.{
  Aead, Xof, Random, VmessBodyContext, write_chunk, copy_plain_to_vmess, body_turn, copy_on,
  copy_vmess_to_plain, read_body, Copied, nonempty_payload, write_vmess_udp_packet_chunk,
  read_vmess_udp_packet_chunk,
}
use zuicity.Transport.Vmess.Chunk.{
  Fills, Framed, encode_chunk-Framed, read_body-Framed, size_bytes, after_chunk,
}

-- What a reader gives: no payload is empty, and none is larger than VMESS_MAX_CHUNK_SIZE.
abbrev pub ArePayloads : List Bytes → Type 0
ArePayloads [] = Unit
ArePayloads (p ∷ payloads) = (1 ≤ length p) × (length p ≤ 16384) × ArePayloads payloads

abbrev pub written : Wire → Bytes → Wire
written w text = record w { output = w.output ++ text }

module _ (cipher : Aead) (xof : Xof) (random : Random) where
  -- The stream of `payloads` from the round `n` on, with both sides in the state `c`.
  record Carried (n : ℕ) (payloads : List Bytes) (c : VmessBodyContext) : Type 0 where
    sent : Bytes
    long : suc (length payloads) ≤ length sent
    writes :
        (w : Wire)
        → copy_plain_to_vmess cipher xof random n (map bytes payloads) c w ≡ (ok tt, written w sent)
    reads :
        (fuel : ℕ) (w : Wire)
        → suc (length payloads) ≤ fuel
        → copy_on cipher xof fuel c (before sent w) ≡ some (ok tt, written w (concat payloads))

  size_turn-Framed :
      (fill_random : ℕ → Outcome TransportError Bytes) (payload read tail : Bytes)
      (c d : VmessBodyContext) (w : Wire) (fuel : ℕ) (s : Framed cipher xof fill_random payload c)
      → read_body cipher xof c (size_bytes cipher xof payload c) (before s.body (before tail w))
        ≡ (ok (read, d), before tail w)
      → copy_on cipher xof
          (suc fuel)
          c
          (before ((size_bytes cipher xof payload c ++ s.body) ++ tail) w)
        ≡ body_turn cipher xof (λ e. λ u. copy_on cipher xof fuel e u) (ok (read, d), before tail w)
  size_turn-Framed fill_random payload read tail c d w fuel s e =
      ap
        (λ (b : Bytes).
          body_turn cipher xof (λ e. λ u. copy_on cipher xof fuel e u)
            (read_body cipher xof c (size_bytes cipher xof payload c) (record w { input = b })))
        (append_assoc s.body tail w.input)
      ∙ ap (body_turn cipher xof (λ e. λ u. copy_on cipher xof fuel e u)) e

  last-Carried :
      (n : ℕ) (c : VmessBodyContext) (s : Framed cipher xof (random n) [] c) → Carried n [] c
  unfolding copy_plain_to_vmess
  last-Carried n c s =
      let chunk = size_bytes cipher xof [] c ++ s.body in
      record {
        sent = chunk;
        long = omega arith;
        writes = λ w.
            ap
              (λ o.
                after (write_chunk cipher xof o w)
                  (λ _. λ u. let r : Outcome TransportError (Unit {0}) × Wire = (ok tt, u) in r))
              s.encoded;
        reads = λ fuel w k. ended fuel w k;
      }
    where
      ended :
          (fuel : ℕ) (w : Wire)
          → 1 ≤ fuel
          → copy_on cipher xof fuel c (before (size_bytes cipher xof [] c ++ s.body) w)
            ≡ some (ok tt, written w [])
      ended zero w k = absurd (omega arith)
      ended (suc fuel) w k =
          ap (body_turn cipher xof (λ e. λ u. copy_on cipher xof fuel e u))
            (read_body-Framed cipher xof (random n) [] [] c _ w s (omega arith) (s.ended refl))
          ∙ ap
              (λ (b : Bytes).
                let r : Copied cipher xof = some (ok tt, record w { output = b }) in r)
              (sym (append-nil w.output))

  next-Carried :
      (n b : ℕ) (bs : Bytes) (payloads : List Bytes) (c : VmessBodyContext)
      (s : Framed cipher xof (random n) (b ∷ bs) c)
      → length (b ∷ bs) ≤ 16384
      → Carried (suc n) payloads (after_chunk cipher xof c)
      → Carried n ((b ∷ bs) ∷ payloads) c
  unfolding copy_plain_to_vmess
  next-Carried n b bs payloads c s l rest =
      let chunk = size_bytes cipher xof (b ∷ bs) c ++ s.body in
      record {
        sent = chunk ++ rest.sent;
        long = omega (arith, rest.long, length-append s.body rest.sent);
        writes = λ w.
            ap
              (λ o.
                after (write_chunk cipher xof o w) (λ d.
                  λ u. copy_plain_to_vmess cipher xof random (suc n) (map bytes payloads) d u))
              s.encoded
            ∙ rest.writes (written w chunk)
            ∙ ap
                (λ (out : Bytes).
                  let r : Outcome TransportError (Unit {0}) × Wire =
                    (ok tt, record w { output = out }) in
                  r)
                (append_assoc w.output chunk rest.sent);
        reads = λ fuel w k. continued fuel w k;
      }
    where
      continued :
          (fuel : ℕ) (w : Wire)
          → suc (suc (length payloads)) ≤ fuel
          → copy_on cipher xof fuel c
              (before ((size_bytes cipher xof (b ∷ bs) c ++ s.body) ++ rest.sent) w)
            ≡ some (ok tt, written w (concat ((b ∷ bs) ∷ payloads)))
      continued zero w k = absurd (omega arith)
      continued (suc fuel) w k =
          size_turn-Framed (random n) (b ∷ bs) (b ∷ bs) rest.sent c (after_chunk cipher xof c) w
            fuel s
            (read_body-Framed cipher xof (random n) (b ∷ bs) (b ∷ bs) c (after_chunk cipher xof c)
              (before rest.sent w) s l (s.decoded (omega arith)))
          ∙ rest.reads fuel (written w (b ∷ bs)) (omega arith)
          ∙ ap
              (λ (out : Bytes).
                let r : Copied cipher xof = some (ok tt, record w { output = out }) in r)
              (append_assoc w.output (b ∷ bs) (concat payloads))

  carried :
      (n : ℕ) (payloads : List Bytes) (c : VmessBodyContext)
      → ((i : ℕ) → Fills (random i))
      → ArePayloads payloads
      → Carried n payloads c
  carried n [] c f v =
      last-Carried n c (encode_chunk-Framed cipher xof (random n) [] c (f n) (omega arith))
  carried n ([] ∷ payloads) c f v = absurd (omega (arith, v.0))
  carried n ((b ∷ bs) ∷ payloads) c f (k, l, v) =
      next-Carried n b bs payloads c (encode_chunk-Framed cipher xof (random n) (b ∷ bs) c (f n) l)
        l (carried (suc n) payloads (after_chunk cipher xof c) f v)

  -- Everything that is read is sealed, padded and masked, and the other side, which starts in the
  -- same state, writes the same bytes in the same order, ends at the empty chunk, and takes nothing
  -- of what follows it.
  pub copy_vmess_to_plain-copy_plain_to_vmess :
      (payloads : List Bytes) (c : VmessBodyContext) (sender receiver : Wire)
      → ((i : ℕ) → Fills (random i))
      → ArePayloads payloads
      → (sent : Bytes) × (copy_plain_to_vmess cipher xof random 0 (map bytes payloads) c sender
          ≡ (ok tt, written sender sent))
        × (copy_vmess_to_plain cipher xof c (before sent receiver)
            ≡ some (ok tt, written receiver (concat payloads)))
  unfolding copy_vmess_to_plain
  copy_vmess_to_plain-copy_plain_to_vmess payloads c sender receiver f v =
      let s = carried 0 payloads c f v in
      (
        s.sent,
        s.writes sender,
        s.reads (suc (length (s.sent ++ receiver.input))) receiver
            (omega (arith, s.long, length-append s.sent receiver.input)),
      )

  -- A UDP packet of 1 to 16384 bytes is written as one chunk, which the other side reads as the same
  -- packet; both sides are in the same state again.
  pub read-write_vmess_udp_packet_chunk :
      (payload : Bytes) (c : VmessBodyContext) (sender receiver : Wire)
      → Fills (random 0)
      → 1 ≤ length payload
      → length payload ≤ 16384
      → (sent : Bytes) × (d : VmessBodyContext) × (write_vmess_udp_packet_chunk cipher xof
            (random 0)
            c
            payload
            sender
          ≡ (ok d, written sender sent))
        × (read_vmess_udp_packet_chunk cipher xof c (before sent receiver)
            ≡ (ok (payload, d), receiver))
  unfolding write_vmess_udp_packet_chunk read_vmess_udp_packet_chunk
  read-write_vmess_udp_packet_chunk [] c sender receiver f k l = absurd (omega (arith, k))
  read-write_vmess_udp_packet_chunk (b ∷ bs) c sender receiver f k l =
      let s = encode_chunk-Framed cipher xof (random 0) (b ∷ bs) c f l in
      (
        size_bytes cipher xof (b ∷ bs) c ++ s.body,
        after_chunk cipher xof c,
        ap (λ o. write_chunk cipher xof o sender) s.encoded,
        ap (λ r. after r (nonempty_payload cipher xof))
            (read_body-Framed cipher xof (random 0) (b ∷ bs) (b ∷ bs) c (after_chunk cipher xof c)
              receiver s l (s.decoded k)),
      )
