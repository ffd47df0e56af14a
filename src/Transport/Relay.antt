-- ===== src/Transport/Relay.antt =====
-- crates/zuicity-transport/src/lib.rs: the copy loops between a stream and its target,
-- `relay_copy_with_stall_timeout`,
-- `relay_quic_chunks_to_target_with_stall_timeout`, `write_all_with_stall_timeout` and
-- `write_all_vectored_with_stall_timeout`. What the reader and the writer answer is an argument, a
-- list in the order of the calls; a reader with no answer left is at its end, a writer with none
-- left never gets ready again. A call that returns gives its outcome and the bytes that the writer
-- took.
pub mod Copy
pub mod ReadAhead
pub mod Vectored
pub mod Batches
mod Tests
use zuicity.Prelude.{
  ℕ, zero, suc, ◌+◌, ◌-◌, List, [], ◌∷◌, ◌++◌, Bool, ◌==◌, ltb, if◌then◌else◌, length, take, drop,
  Option, none, some, Outcome, ok, err, panic,
}
use zuicity.Prelude.Bytes.{Bytes}

pub data IoError : Type 0 where
  timed_out write_zero : IoError
  other : ℕ → IoError

-- `read_buf`: the bytes that were read, none at the end of the stream.
pub data ReadAnswer : Type 0 where
  bytes : Bytes → ReadAnswer
  read_failed : IoError → ReadAnswer

-- `write_all` of one buffer: all of it is taken, or an error comes after some of it, or some of it
-- is taken and nothing more.
pub data WriteAnswer : Type 0 where
  taken : WriteAnswer
  failed : IoError → ℕ → WriteAnswer
  stalled : ℕ → WriteAnswer

-- The future is ready at the first poll, or later.
pub data Timing : Type 0 where
  at_once later : WriteAnswer → Timing

abbrev pub Relayed : Type 0 → Type 0
Relayed A = Outcome IoError A × Bytes

-- The outcome, and how many bytes of the buffer were taken. A write that is not ready at the first
-- poll is given the stall timeout.
unfoldable pub write_all_with_stall_timeout : Timing → Bytes → Outcome IoError (Unit {0}) × ℕ
write_all_with_stall_timeout (at_once taken) buffer = (ok tt, length buffer)
write_all_with_stall_timeout (at_once (failed e k)) buffer = (err e, k)
write_all_with_stall_timeout (at_once (stalled k)) buffer = (err timed_out, k)
write_all_with_stall_timeout (later taken) buffer = (ok tt, length buffer)
write_all_with_stall_timeout (later (failed e k)) buffer = (err e, k)
write_all_with_stall_timeout (later (stalled k)) buffer = (err timed_out, k)

abbrev pub first_answer : List Timing → Timing
first_answer [] = later (stalled 0)
first_answer (a ∷ _) = a

abbrev pub rest_answers : List Timing → List Timing
rest_answers [] = []
rest_answers (_ ∷ answers) = answers

module _ (flushed : Outcome IoError (Unit {0})) where
  -- `writer.flush().await?; Ok(copied)`
  abbrev pub flush_and_return : ℕ → Bytes → Relayed ℕ
  flush_and_return copied output = (flush_outcome flushed copied, output)
    where
      flush_outcome : Outcome IoError (Unit {0}) → ℕ → Outcome IoError ℕ
      flush_outcome (ok _) n = ok n
      flush_outcome (err e) n = err e
      flush_outcome panic n = panic

  -- `next` runs where the buffer was written whole.
  abbrev pub after_write : Bytes → Bytes → Outcome IoError (Unit {0}) × ℕ → Relayed ℕ → Relayed ℕ
  after_write buffer output (ok _, k) next = next
  after_write buffer output (err e, k) next = (err e, output ++ take k buffer)
  after_write buffer output (panic, k) next = (panic, output)

  unfoldable pub relay_copy_with_stall_timeout :
      List ReadAnswer → List Timing → ℕ → Bytes → Relayed ℕ
  relay_copy_with_stall_timeout [] writes copied output = flush_and_return copied output
  relay_copy_with_stall_timeout (read_failed e ∷ reads) writes copied output = (err e, output)
  relay_copy_with_stall_timeout (bytes [] ∷ reads) writes copied output =
      flush_and_return copied output
  relay_copy_with_stall_timeout (bytes (b ∷ bs) ∷ reads) writes copied output =
      after_write (b ∷ bs) output (write_all_with_stall_timeout (first_answer writes) (b ∷ bs)) (
        relay_copy_with_stall_timeout reads (rest_answers writes) (copied + length (b ∷ bs))
          (output ++ (b ∷ bs)))

-- `write_vectored`: the number of bytes taken from the front of the slices, or an error.
pub data VectoredAnswer : Type 0 where
  accepted : ℕ → VectoredAnswer
  refused : IoError → VectoredAnswer

abbrev pub relay_quic_chunk_batch_size : ℕ
relay_quic_chunk_batch_size = 64

-- The inner loop: `remaining` bytes leave the chunks from `first` on; past the last chunk
-- `chunks[first]` panics.
unfoldable pub advance_chunks : ℕ → List Bytes → Outcome IoError (List Bytes)
advance_chunks zero chunks = ok chunks
advance_chunks remaining [] = panic
advance_chunks remaining (c ∷ chunks) =
    let rest = advance_chunks (remaining - length c) chunks in
    if ltb remaining (length c) then ok (drop remaining c ∷ chunks) else rest

-- The bytes that leave, in order.
abbrev pub front_bytes : ℕ → List Bytes → Bytes
front_bytes n [] = []
front_bytes n (c ∷ chunks) = take n c ++ front_bytes (n - length c) chunks

abbrev pub turn :
    Outcome IoError (List Bytes) → Bytes → (List Bytes → Relayed (Unit {0})) → Relayed (Unit {0})
turn (ok chunks) output next = next chunks
turn (err e) output next = (err e, output)
turn panic output next = (panic, output)

-- The outer loop, on the chunks from `first` on.
unfoldable pub write_chunks : List VectoredAnswer → List Bytes → Bytes → Relayed (Unit {0})
write_chunks answers [] output = (ok tt, output)
write_chunks [] (c ∷ chunks) output = (err timed_out, output)
write_chunks (refused e ∷ answers) (c ∷ chunks) output = (err e, output)
write_chunks (accepted zero ∷ answers) (c ∷ chunks) output = (err write_zero, output)
write_chunks (accepted (suc n) ∷ answers) (c ∷ chunks) output =
    turn (advance_chunks (suc n) (c ∷ chunks)) (output ++ front_bytes (suc n) (c ∷ chunks))
      (λ rest. write_chunks answers rest (output ++ front_bytes (suc n) (c ∷ chunks)))

-- `slices[..chunks.len() - first]` is out of range where there are more chunks than slices.
unfoldable pub write_all_vectored_with_stall_timeout :
    List VectoredAnswer → List Bytes → Bytes → Relayed (Unit {0})
write_all_vectored_with_stall_timeout answers chunks output =
    if ltb relay_quic_chunk_batch_size (length chunks)
    then (panic, output)
    else write_chunks answers chunks output

-- `read_chunks`: a batch of chunks, or an error; at the end of the stream there is no answer. The
-- writer's answers to the batch come with it.
pub data ChunksAnswer : Type 0 where
  batch : List Bytes → List VectoredAnswer → ChunksAnswer
  chunks_failed : IoError → ChunksAnswer

abbrev pub total_len : List Bytes → ℕ
total_len [] = 0
total_len (c ∷ chunks) = length c + total_len chunks

module _ (flushed : Outcome IoError (Unit {0})) where
  abbrev pub then_batch : Relayed (Unit {0}) → (Bytes → Relayed ℕ) → Relayed ℕ
  then_batch (ok _, output) next = next output
  then_batch (err e, output) next = (err e, output)
  then_batch (panic, output) next = (panic, output)

  unfoldable pub relay_quic_chunks_to_target_with_stall_timeout :
      List ChunksAnswer → ℕ → Bytes → Relayed ℕ
  relay_quic_chunks_to_target_with_stall_timeout [] copied output =
      flush_and_return flushed copied output
  relay_quic_chunks_to_target_with_stall_timeout (chunks_failed e ∷ reads) copied output =
      (err e, output)
  relay_quic_chunks_to_target_with_stall_timeout (batch chunks answers ∷ reads) copied output =
      then_batch (write_all_vectored_with_stall_timeout answers chunks output) (λ written.
        relay_quic_chunks_to_target_with_stall_timeout reads (copied + total_len chunks) written)
