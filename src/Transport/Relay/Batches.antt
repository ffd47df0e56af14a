-- ===== src/Transport/Relay/Batches.antt =====
-- The relay of a stream that is read in batches of chunks.
use zuicity.Prelude.{
  ℕ, ◌+◌, ◌≤◌, ◌≡◌, ◌≢◌, refl, sym, ap, ◌∙◌, subst, List, [], ◌∷◌, ◌++◌, append_assoc, arith,
  length, length-append, Bool, true, false, ltb, if◌then◌else◌, Outcome, ok, err, panic,
}
use zuicity.Prelude.Bytes.{Bytes, concat}
use zuicity.Transport.Relay.{
  IoError, VectoredAnswer, ChunksAnswer, batch, chunks_failed, Relayed, then_batch, total_len,
  write_chunks, write_all_vectored_with_stall_timeout,
  relay_quic_chunks_to_target_with_stall_timeout,
}
use zuicity.Transport.Relay.Copy.{IsRelayed, flush-IsRelayed, moved-IsRelayed}
use zuicity.Transport.Relay.Vectored.{AreInBounds, IsWritten, write_chunks-IsWritten}

-- The bytes that the stream gives until its end or its error.
abbrev pub chunk_bytes : List ChunksAnswer → Bytes
chunk_bytes [] = []
chunk_bytes (chunks_failed e ∷ reads) = []
chunk_bytes (batch chunks answers ∷ reads) = concat chunks ++ chunk_bytes reads

-- What `read_chunks` and `write_vectored` promise: a batch has at most 64 chunks, and no write
-- takes more than it is given.
abbrev pub AreBatches : List ChunksAnswer → Type 0
AreBatches [] = Unit
AreBatches (chunks_failed e ∷ reads) = AreBatches reads
AreBatches (batch chunks answers ∷ reads) =
    (length chunks ≤ 64) × AreInBounds (total_len chunks) answers × AreBatches reads

length-concat : (chunks : List Bytes) → length (concat chunks) ≡ total_len chunks
length-concat [] = refl
length-concat (c ∷ chunks) = omega (arith, length-append c (concat chunks), length-concat chunks)

vectored-IsWritten :
    (answers : List VectoredAnswer) (chunks : List Bytes) (output : Bytes)
    → length chunks ≤ 64
    → AreInBounds (total_len chunks) answers
    → IsWritten output chunks (write_all_vectored_with_stall_timeout answers chunks output)
unfolding write_all_vectored_with_stall_timeout
vectored-IsWritten answers chunks output k v =
    fits (ltb 64 (length chunks)) refl (write_chunks-IsWritten answers chunks output v)
  where
    fits :
        (b : Bool)
        → ltb 64 (length chunks) ≡ b
        → IsWritten output chunks (write_chunks answers chunks output)
        → IsWritten output chunks
            (if b then (panic, output) else write_chunks answers chunks output)
    fits true e w = absurd (ground (arith, e))
    fits false e w = w

then_batch-IsRelayed :
    (flushed : Outcome IoError (Unit {0})) (copied : ℕ) (output source : Bytes)
    (chunks : List Bytes) (r : Relayed (Unit {0})) (next : Bytes → Relayed ℕ)
    → IsWritten output chunks r
    → ((w : Bytes) → IsRelayed (copied + length (concat chunks)) w source (next w))
    → IsRelayed copied output (concat chunks ++ source) (then_batch flushed r next)
then_batch-IsRelayed flushed copied output source chunks (ok _, w) next p f =
    moved-IsRelayed copied (concat chunks) output source (next w)
      (subst (λ (b : Bytes). IsRelayed (copied + length (concat chunks)) b source (next w)) p (f w))
then_batch-IsRelayed flushed copied output source chunks (err e, w) next (rest, p) f = (
  rest ++ source,
  sym (append_assoc w rest source)
      ∙ ap (λ (b : Bytes). b ++ source) p
      ∙ append_assoc output (concat chunks) source,
)
then_batch-IsRelayed flushed copied output source chunks (panic, w) next p f = absurd p

relay_quic_chunks_from-IsRelayed :
    (flushed : Outcome IoError (Unit {0})) (reads : List ChunksAnswer) (copied : ℕ) (output : Bytes)
    → flushed ≢ panic
    → AreBatches reads
    → IsRelayed copied output
        (chunk_bytes reads)
        (relay_quic_chunks_to_target_with_stall_timeout flushed reads copied output)
unfolding relay_quic_chunks_to_target_with_stall_timeout
relay_quic_chunks_from-IsRelayed flushed [] copied output h v =
    flush-IsRelayed flushed copied output h
relay_quic_chunks_from-IsRelayed flushed (chunks_failed e ∷ reads) copied output h v = ([], refl)
relay_quic_chunks_from-IsRelayed flushed (batch chunks answers ∷ reads) copied output h (k, b, v) =
    then_batch-IsRelayed flushed copied output (chunk_bytes reads) chunks
      (write_all_vectored_with_stall_timeout answers chunks output) _
      (vectored-IsWritten answers chunks output k b)
      (λ w.
        rw (length-concat chunks)
          (relay_quic_chunks_from-IsRelayed flushed reads (copied + total_len chunks) w h v))

-- Where the stream and the writer keep what they promise, the chunk relay that returns has written
-- exactly the bytes of all chunks, in order, and returns their number; one that fails has written a
-- front part of them; it never panics.
pub relay_quic_chunks-IsRelayed :
    (flushed : Outcome IoError (Unit {0})) (reads : List ChunksAnswer)
    → flushed ≢ panic
    → AreBatches reads
    → IsRelayed 0 []
        (chunk_bytes reads)
        (relay_quic_chunks_to_target_with_stall_timeout flushed reads 0 [])
relay_quic_chunks-IsRelayed flushed reads h v =
    relay_quic_chunks_from-IsRelayed flushed reads 0 [] h v
