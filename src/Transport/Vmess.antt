-- ===== src/Transport/Vmess.antt =====
-- crates/zuicity-transport/src/lib.rs: the body of a VMess stream, `ShakeSizeMask`,
-- `VmessBodyContext`, `copy_plain_to_vmess`, `copy_vmess_to_plain`, and the chunks of VMess UDP. The
-- cipher with its key, the bytes of the SHAKE-128 reader and the random padding are arguments. After
-- an error a context is not used again, so a call that fails does not return it.
pub mod Chunk
pub mod Body
pub mod Returns
pub mod Request
mod Tests
use zuicity.Prelude.{
  ℕ, zero, suc, ◌+◌, ◌-◌, ◌%◌, ◌≤◌, ◌<◌, ◌≡◌, List, [], ◌∷◌, ◌++◌, Bool, ◌==◌, ltb, if◌then◌else◌,
  length, get_or, take, drop, Option, none, some, Outcome, ok, err, panic,
}
use Prim.Native.Nat.{bit_xor}
use zuicity.Prelude.Bytes.{Bytes, from_be_u16, to_be_u16}
use zuicity.Session.{
  Closing, finished, lost, Wire, Session, ◌>>=◌, ◌>>◌, after, return, fail, read_exact, write_all,
  split_exact,
}
use zuicity.Transport.Defs.{
  TransportError, io, no_usable_udp_target, vmess_proxy, chunk_exceeds_u16, encrypt_chunk,
  invalid_chunk_length, decrypt_chunk,
}
use zuicity.Transport.Relay.{ReadAnswer, bytes, read_failed}

-- An AEAD cipher with its key: a text of at most 65535 bytes is sealed under a nonce with 16 bytes
-- more, and opened again under the same nonce.
pub record Aead : Type 0 where
  pub encrypt : Bytes → Bytes → Option Bytes
  pub decrypt : Bytes → Bytes → Option Bytes
  pub seals :
      (nonce text : Bytes)
      → length text ≤ 65535
      → (sealed : Bytes) × (encrypt nonce text ≡ some sealed)
        × (length sealed ≡ length text + 16)
        × (decrypt nonce sealed ≡ some text)

-- The bytes of an extendable-output function, in order.
pub record Xof : Type 0 where
  pub byte : ℕ → ℕ
  pub bounded : (i : ℕ) → byte i < 256

-- `fill_random` in the round `n` of a loop, for `k` bytes.
abbrev pub Random : Type 0
Random = ℕ → ℕ → Outcome TransportError Bytes

-- `read`: how many bytes of the mask were read.
pub record VmessBodyContext : Type 0 where
  pub base_nonce : Bytes
  pub nonce_counter : ℕ
  pub read : ℕ

-- `VmessBodyContext::request` and `response`, after the key schedule.
abbrev pub fresh : Bytes → VmessBodyContext
fresh base_nonce = record { base_nonce = base_nonce; nonce_counter = 0; read = 0 }

-- `?` on the error of a short read, an `std::io::Error`.
abbrev pub vmess_short : Closing → ℕ → TransportError
vmess_short _ _ = io

-- `VmessBodyContext::next_nonce`
abbrev pub nonce_of : VmessBodyContext → Bytes
nonce_of c = to_be_u16 c.nonce_counter ++ take 10 (drop 2 c.base_nonce)

abbrev pub nonce_taken : VmessBodyContext → VmessBodyContext
nonce_taken c = record c { nonce_counter = (c.nonce_counter + 1) % 65536 }

module _ (cipher : Aead) (xof : Xof) where
  -- `ShakeSizeMask::next`
  abbrev pub next_mask : VmessBodyContext → ℕ
  next_mask c = from_be_u16 (xof.byte c.read) (xof.byte (c.read + 1))

  abbrev pub mask_taken : VmessBodyContext → VmessBodyContext
  mask_taken c = record c { read = c.read + 2 }

  -- `ShakeSizeMask::padding_len`
  abbrev pub padding_len : VmessBodyContext → ℕ
  padding_len c = next_mask c % 64

  -- `ShakeSizeMask::encode_size` and `decode_size`
  abbrev pub encode_size : ℕ → VmessBodyContext → Bytes
  encode_size size c = to_be_u16 (bit_xor size (next_mask c))

  abbrev pub decode_size : Bytes → VmessBodyContext → ℕ
  decode_size size c = bit_xor (from_be_u16 (get_or size 0 0) (get_or size 1 0)) (next_mask c)

  -- The random padding behind a chunk, where there is any.
  abbrev pub pad_chunk :
      Bytes
      → ℕ
      → (ℕ → Outcome TransportError Bytes)
      → VmessBodyContext
      → Outcome TransportError (Bytes × VmessBodyContext)
  pad_chunk chunk padding fill_random c =
      if padding == 0 then ok (chunk, c) else padded (fill_random padding)
    where
      padded : Outcome TransportError Bytes → Outcome TransportError (Bytes × VmessBodyContext)
      padded (ok random) = ok (chunk ++ random, c)
      padded (err e) = err e
      padded panic = panic

  abbrev pub sealed_chunk :
      ℕ
      → ℕ
      → (ℕ → Outcome TransportError Bytes)
      → VmessBodyContext
      → Option Bytes
      → Outcome TransportError (Bytes × VmessBodyContext)
  sealed_chunk total padding fill_random c none = err (vmess_proxy encrypt_chunk)
  sealed_chunk total padding fill_random c (some sealed) =
      pad_chunk (encode_size total c ++ sealed) padding fill_random (mask_taken c)

  -- `VmessBodyContext::encode_chunk`
  unfoldable pub encode_chunk :
      (ℕ → Outcome TransportError Bytes)
      → Bytes
      → VmessBodyContext
      → Outcome TransportError (Bytes × VmessBodyContext)
  encode_chunk fill_random payload c =
      let total = length payload + 16 + padding_len c in
      if ltb 65535 total
      then err (vmess_proxy chunk_exceeds_u16)
      else sealed_chunk total (padding_len c) fill_random (nonce_taken (mask_taken c))
          (cipher.encrypt (nonce_of c) payload)

  abbrev pub opened_chunk :
      VmessBodyContext → Option Bytes → Outcome TransportError (Bytes × VmessBodyContext)
  opened_chunk c none = err (vmess_proxy decrypt_chunk)
  opened_chunk c (some payload) = ok (payload, c)

  -- `VmessBodyContext::decode_chunk`
  unfoldable pub decode_chunk :
      Bytes → ℕ → VmessBodyContext → Outcome TransportError (Bytes × VmessBodyContext)
  decode_chunk encrypted padding c =
      if ltb (length encrypted) (16 + padding)
      then err (vmess_proxy invalid_chunk_length)
      else if length (take (length encrypted - padding) encrypted) == 16
      then ok ([], c)
      else opened_chunk (nonce_taken c)
          (cipher.decrypt (nonce_of c) (take (length encrypted - padding) encrypted))

  -- A chunk after its size, which both readers share.
  abbrev pub read_body :
      VmessBodyContext → Bytes → Session TransportError (Bytes × VmessBodyContext)
  read_body c size = do
    encrypted ← read_exact vmess_short (decode_size size (mask_taken c))
    λ w. (decode_chunk encrypted (padding_len c) (mask_taken (mask_taken c)), w)

  abbrev pub nonempty_payload :
      Bytes × VmessBodyContext → Session TransportError (Bytes × VmessBodyContext)
  nonempty_payload ([], c) = fail no_usable_udp_target
  nonempty_payload (b ∷ payload, c) = return (b ∷ payload, c)

  unfoldable pub read_vmess_udp_packet_chunk :
      VmessBodyContext → Session TransportError (Bytes × VmessBodyContext)
  read_vmess_udp_packet_chunk c = do
    size ← read_exact vmess_short 2
    read ← read_body c size
    nonempty_payload read

  -- `encode_chunk(…)?` and `write_all` of the chunk.
  abbrev pub write_chunk :
      Outcome TransportError (Bytes × VmessBodyContext) → Session TransportError VmessBodyContext
  write_chunk (ok (chunk, c)) w = (ok c, record w { output = w.output ++ chunk })
  write_chunk (err e) w = (err e, w)
  write_chunk panic w = (panic, w)

  unfoldable pub write_vmess_udp_packet_chunk :
      (ℕ → Outcome TransportError Bytes)
      → VmessBodyContext
      → Bytes
      → Session TransportError VmessBodyContext
  write_vmess_udp_packet_chunk fill_random c payload =
      write_chunk (encode_chunk fill_random payload c)

  -- The empty chunk that ends the stream.
  abbrev pub finish :
      (ℕ → Outcome TransportError Bytes) → VmessBodyContext → Session TransportError (Unit {0})
  finish fill_random c = do c ← write_chunk (encode_chunk fill_random [] c); return tt

  -- `copy_plain_to_vmess` from the round `n` on: what the reader answers, until its end.
  unfoldable pub copy_plain_to_vmess :
      Random → ℕ → List ReadAnswer → VmessBodyContext → Session TransportError (Unit {0})
  copy_plain_to_vmess random n [] c w = finish (random n) c w
  copy_plain_to_vmess random n (read_failed e ∷ reads) c w = (err io, w)
  copy_plain_to_vmess random n (bytes [] ∷ reads) c w = finish (random n) c w
  copy_plain_to_vmess random n (bytes (b ∷ bs) ∷ reads) c w =
      after (write_chunk (encode_chunk (random n) (b ∷ bs) c) w)
        (λ d. λ u. copy_plain_to_vmess random (suc n) reads d u)

  -- What `copy_vmess_to_plain` returns, or nothing where the fuel runs out.
  abbrev pub Copied : Type 0
  Copied = Option (Outcome TransportError (Unit {0}) × Wire)

  -- `UnexpectedEof` where the size is expected is the end of the stream.
  abbrev pub at_end : Wire → Closing → Outcome TransportError (Unit {0}) × Wire
  at_end w finished = (ok tt, record w { input = [] })
  at_end w lost = (err io, record w { input = [] })

  abbrev pub body_turn :
      (VmessBodyContext → Wire → Copied)
      → Outcome TransportError (Bytes × VmessBodyContext) × Wire
      → Copied
  body_turn next (ok ([], c), w) = some (ok tt, w)
  body_turn next (ok (b ∷ bs, c), w) = next c (record w { output = w.output ++ (b ∷ bs) })
  body_turn next (err e, w) = some (err e, w)
  body_turn next (panic, w) = some (panic, w)

  abbrev pub size_turn :
      (VmessBodyContext → Wire → Copied) → VmessBodyContext → Wire → Option (Bytes × Bytes) → Copied
  size_turn next c w none = some (at_end w w.closing)
  size_turn next c w (some (size, rest)) =
      body_turn next (read_body c size (record w { input = rest }))

  abbrev pub copy_on : ℕ → VmessBodyContext → Wire → Copied
  copy_on zero c w = none
  copy_on (suc fuel) c w = size_turn (λ d. λ u. copy_on fuel d u) c w (split_exact 2 w.input)

  -- A chunk takes at least the two bytes of its size.
  unfoldable pub copy_vmess_to_plain : VmessBodyContext → Wire → Copied
  copy_vmess_to_plain c w = copy_on (suc (length w.input)) c w
