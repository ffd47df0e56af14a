-- ===== src/Transport/Relay/Copy.antt =====
-- What the plain copy loop has written when it returns.
use zuicity.Prelude.{
  ℕ, ◌+◌, ◌≡◌, ◌≢◌, refl, sym, ap, ◌∙◌, List, [], ◌∷◌, ◌++◌, append_assoc, append-nil, arith,
  length, length-append, take, take-append-drop, drop, Outcome, ok, err, panic,
}
use zuicity.Prelude.Bytes.{Bytes}
use zuicity.Transport.Relay.{
  IoError, ReadAnswer, bytes, read_failed, Timing, at_once, later, taken, failed, stalled, Relayed,
  first_answer, rest_answers, flush_and_return, after_write, write_all_with_stall_timeout,
  relay_copy_with_stall_timeout,
}

-- What the reader gives until its end or its error.
abbrev pub source_bytes : List ReadAnswer → Bytes
source_bytes [] = []
source_bytes (read_failed e ∷ reads) = []
source_bytes (bytes [] ∷ reads) = []
source_bytes (bytes (b ∷ bs) ∷ reads) = (b ∷ bs) ++ source_bytes reads

-- A loop that returns a count has written all of `source` behind `output` and counted it; one that
-- fails has written a front part of it.
abbrev pub IsRelayed : ℕ → Bytes → Bytes → Relayed ℕ → Type 0
IsRelayed copied output source (ok n, written) =
    (written ≡ output ++ source) × (n ≡ copied + length source)
IsRelayed copied output source (err e, written) =
    (rest : Bytes) × (written ++ rest ≡ output ++ source)
IsRelayed copied output source (panic, written) = ⊥

pub flush-IsRelayed :
    (flushed : Outcome IoError (Unit {0})) (copied : ℕ) (output : Bytes)
    → flushed ≢ panic
    → IsRelayed copied output [] (flush_and_return flushed copied output)
flush-IsRelayed (ok _) copied output h = (sym (append-nil output), omega arith)
flush-IsRelayed (err e) copied output h = ([], refl)
flush-IsRelayed panic copied output h = h refl

after_write-IsRelayed :
    (flushed : Outcome IoError (Unit {0})) (copied k : ℕ) (buffer output source : Bytes)
    (o : Outcome IoError (Unit {0})) (next : Relayed ℕ)
    → o ≢ panic
    → IsRelayed copied output (buffer ++ source) next
    → IsRelayed copied output (buffer ++ source) (after_write flushed buffer output (o, k) next)
after_write-IsRelayed flushed copied k buffer output source (ok _) next h r = r
after_write-IsRelayed flushed copied k buffer output source (err e) next h r = (
  drop k buffer ++ source,
  append_assoc output (take k buffer) (drop k buffer ++ source)
      ∙ ap (λ (b : Bytes). output ++ b)
          (sym (append_assoc (take k buffer) (drop k buffer) source)
            ∙ ap (λ (b : Bytes). b ++ source) (take-append-drop k buffer)),
)
after_write-IsRelayed flushed copied k buffer output source panic next h r = absurd (h refl)

pub moved-IsRelayed :
    (copied : ℕ) (buffer output source : Bytes) (r : Relayed ℕ)
    → IsRelayed (copied + length buffer) (output ++ buffer) source r
    → IsRelayed copied output (buffer ++ source) r
moved-IsRelayed copied buffer output source (ok n, w) (p, q) =
    (p ∙ append_assoc output buffer source, omega (arith, q, length-append buffer source))
moved-IsRelayed copied buffer output source (err e, w) (rest, p) =
    (rest, p ∙ append_assoc output buffer source)
moved-IsRelayed copied buffer output source (panic, w) p = p

write_all-ne-panic :
    (t : Timing) (buffer : Bytes) → (write_all_with_stall_timeout t buffer).0 ≢ panic
unfolding write_all_with_stall_timeout
write_all-ne-panic (at_once taken) buffer = ground arith
write_all-ne-panic (at_once (failed e k)) buffer = ground arith
write_all-ne-panic (at_once (stalled k)) buffer = ground arith
write_all-ne-panic (later taken) buffer = ground arith
write_all-ne-panic (later (failed e k)) buffer = ground arith
write_all-ne-panic (later (stalled k)) buffer = ground arith

relay_copy_from-IsRelayed :
    (flushed : Outcome IoError (Unit {0})) (reads : List ReadAnswer) (writes : List Timing)
    (copied : ℕ) (output : Bytes)
    → flushed ≢ panic
    → IsRelayed copied output
        (source_bytes reads)
        (relay_copy_with_stall_timeout flushed reads writes copied output)
unfolding relay_copy_with_stall_timeout
relay_copy_from-IsRelayed flushed [] writes copied output h =
    flush-IsRelayed flushed copied output h
relay_copy_from-IsRelayed flushed (read_failed e ∷ reads) writes copied output h = ([], refl)
relay_copy_from-IsRelayed flushed (bytes [] ∷ reads) writes copied output h =
    flush-IsRelayed flushed copied output h
relay_copy_from-IsRelayed flushed (bytes (b ∷ bs) ∷ reads) writes copied output h =
    let answer = write_all_with_stall_timeout (first_answer writes) (b ∷ bs) in
    after_write-IsRelayed flushed copied answer.1 (b ∷ bs) output (source_bytes reads) answer.0 _
      (write_all-ne-panic (first_answer writes) (b ∷ bs))
      (moved-IsRelayed copied (b ∷ bs) output (source_bytes reads) _ (
        relay_copy_from-IsRelayed flushed reads (rest_answers writes) (copied + length (b ∷ bs))
          (output ++ (b ∷ bs)) h))

-- Whatever the reader and the writer answer, a copy that returns has written exactly the bytes that
-- the reader gave, in order, and returns their number; one that fails has written a front part of
-- them.
pub relay_copy-IsRelayed :
    (flushed : Outcome IoError (Unit {0})) (reads : List ReadAnswer) (writes : List Timing)
    → flushed ≢ panic
    → IsRelayed 0 [] (source_bytes reads) (relay_copy_with_stall_timeout flushed reads writes 0 [])
relay_copy-IsRelayed flushed reads writes h = relay_copy_from-IsRelayed flushed reads writes 0 [] h
