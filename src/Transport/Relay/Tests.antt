-- ===== src/Transport/Relay/Tests.antt =====
-- The copy loops on concrete answers.
use zuicity.Prelude.{◌≡◌, ◌≢◌, refl, List, [], ◌∷◌, ◌++◌, arith, ok, err, panic, Outcome}
use zuicity.Prelude.Bytes.{Bytes, concat}
use zuicity.Transport.Relay.{
  IoError, timed_out, ReadAnswer, bytes, Timing, at_once, later, taken, stalled, VectoredAnswer,
  accepted, ChunksAnswer, batch, write_all_with_stall_timeout, relay_copy_with_stall_timeout,
  write_all_vectored_with_stall_timeout, relay_quic_chunks_to_target_with_stall_timeout,
}
use zuicity.Transport.Relay.ReadAhead.{Race, write_first, read_first}
use zuicity.Transport.Relay.Copy.{IsRelayed, source_bytes, relay_copy-IsRelayed}
use zuicity.Transport.Relay.Vectored.{write_all_vectored-completes}
use zuicity.Transport.Relay.Batches.{chunk_bytes, relay_quic_chunks-IsRelayed}

abbrev flushed : Outcome IoError (Unit {0})
flushed = ok tt

abbrev reads : List ReadAnswer
reads = bytes (1 ∷ 2 ∷ []) ∷ bytes (3 ∷ []) ∷ bytes [] ∷ []

-- The second write stalls.
abbrev writes : List Timing
writes = at_once taken ∷ later (stalled 0) ∷ []

relayed : relay_copy_with_stall_timeout flushed reads writes 0 [] ≡ (err timed_out, 1 ∷ 2 ∷ [])
unfolding relay_copy_with_stall_timeout write_all_with_stall_timeout
relayed = refl

-- The first read ahead is ready before the write, the second behind it.
abbrev races : List Race
races = read_first ∷ write_first ∷ []

flushed-ne-panic : flushed ≢ panic
flushed-ne-panic = ground arith

relay_copy-IsRelayed_example :
    IsRelayed 0 [] (source_bytes reads) (relay_copy_with_stall_timeout flushed reads writes 0 [])
relay_copy-IsRelayed_example = relay_copy-IsRelayed flushed reads writes flushed-ne-panic

-- Three bytes in two chunks, of which the writer takes two and then one.
abbrev chunks : List Bytes
chunks = (1 ∷ []) ∷ (2 ∷ 3 ∷ []) ∷ []

abbrev answers : List VectoredAnswer
answers = accepted 2 ∷ accepted 1 ∷ []

write_all_vectored-completes_example :
    write_all_vectored_with_stall_timeout answers chunks (9 ∷ [])
    ≡ (ok tt, (9 ∷ []) ++ concat chunks)
write_all_vectored-completes_example =
    write_all_vectored-completes answers chunks (9 ∷ []) (omega arith)
      (omega arith, (omega arith, tt)) (omega arith, omega arith, (omega arith, omega arith, tt))

abbrev batches : List ChunksAnswer
batches = batch chunks answers ∷ batch ((4 ∷ []) ∷ []) (accepted 1 ∷ []) ∷ []

relay_quic_chunks-IsRelayed_example :
    IsRelayed 0 []
      (chunk_bytes batches)
      (relay_quic_chunks_to_target_with_stall_timeout flushed batches 0 [])
relay_quic_chunks-IsRelayed_example =
    relay_quic_chunks-IsRelayed flushed batches flushed-ne-panic
      (omega arith, (omega arith, (omega arith, tt)), (omega arith, (omega arith, tt), tt))
