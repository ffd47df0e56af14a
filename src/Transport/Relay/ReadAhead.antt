-- ===== src/Transport/Relay/ReadAhead.antt =====
-- crates/zuicity-transport/src/lib.rs: `relay_copy_read_ahead_with_stall_timeout`, the copy loop
-- that reads into one of two buffers while it writes the other. Which of the two futures of a round
-- the `select!` finds ready first is an argument, a list in the order of the rounds; with none left
-- the write is.
pub mod Equivalent
use zuicity.Prelude.{
  ℕ, zero, suc, ◌+◌, List, [], ◌∷◌, ◌++◌, Bool, true, false, not, ltb, if◌then◌else◌, length, take,
  Option, none, some, Outcome, ok, err, panic,
}
use zuicity.Prelude.Bytes.{Bytes}
use zuicity.Transport.Relay.{
  IoError, ReadAnswer, bytes, read_failed, Timing, Relayed, first_answer, rest_answers,
  flush_and_return, after_write, write_all_with_stall_timeout,
}

pub data Race : Type 0 where
  write_first read_first : Race

abbrev pub first_race : List Race → Race
first_race [] = write_first
first_race (r ∷ _) = r

abbrev pub rest_races : List Race → List Race
rest_races [] = []
rest_races (_ ∷ races) = races

-- The two buffers; an index is `false` for 0 and `true` for 1.
pub record Buffers : Type 0 where
  pub zeroth : Bytes
  pub oneth : Bytes

abbrev pub buffer : Buffers → Bool → Bytes
buffer b false = b.zeroth
buffer b true = b.oneth

abbrev pub set_buffer : Buffers → Bool → Bytes → Buffers
set_buffer b false content = record b { zeroth = content }
set_buffer b true content = record b { oneth = content }

-- `read_buf`: the number of bytes read, and the buffer with them behind what it held.
abbrev pub read_buf : ReadAnswer → Bytes → Outcome IoError ℕ × Bytes
read_buf (bytes b) content = (ok (length b), content ++ b)
read_buf (read_failed e) content = (err e, content)

-- A read that ended before the write did is retained until the write has ended.
abbrev pub retained : Race → Outcome IoError ℕ × Bytes → Option (Outcome IoError ℕ × Bytes)
retained write_first read = none
retained read_first read = some read

-- `match read_result { Some(result) => result?, None => read.await? }`
abbrev pub awaited :
    Option (Outcome IoError ℕ × Bytes) → Outcome IoError ℕ × Bytes → Outcome IoError ℕ × Bytes
awaited (some result) read = result
awaited none read = read

abbrev pub read_done : Outcome IoError ℕ × Bytes → (ℕ → Bytes → Relayed ℕ) → Bytes → Relayed ℕ
read_done (ok n, content) next output = next n content
read_done (err e, content) next output = (err e, output)
read_done (panic, content) next output = (panic, output)

module _ (flushed : Outcome IoError (Unit {0})) where
  -- The round behind `&current_buffer[0][..current_len]`, which is in range: the write, and the read
  -- into the other buffer. A write that fails ends the loop, whatever was read.
  abbrev pub raced :
      Race → ReadAnswer → Timing → Bytes → Bytes → Bytes → (ℕ → Bytes → Relayed ℕ) → Relayed ℕ
  raced race answer write slice content output next =
      let read = read_buf answer content in
      after_write flushed slice output (write_all_with_stall_timeout write slice)
        (read_done (awaited (retained race read) read) next (output ++ slice))

  -- One turn of `while current_len != 0`, in which the reader gives `answer`; `next` is the loop with
  -- the state that the turn leaves.
  abbrev pub read_ahead_turn :
      Race
      → ReadAnswer
      → Timing
      → Buffers
      → Bool
      → ℕ
      → ℕ
      → Bytes
      → (Buffers → Bool → ℕ → ℕ → Bytes → Relayed ℕ)
      → Relayed ℕ
  read_ahead_turn race answer write buffers current current_len copied output next =
      let cleared = set_buffer buffers (not current) [] in
      let current_buffer = buffer cleared current in
      let slice = take current_len current_buffer in
      if ltb (length current_buffer) current_len
      then (panic, output)
      else raced race answer write slice (buffer cleared (not current)) output (λ n content.
        next (set_buffer cleared (not current) content) (not current) n (copied + current_len)
          (output ++ slice))

  -- `while current_len != 0`
  abbrev pub while_read : ℕ → Relayed ℕ → Relayed ℕ → Relayed ℕ
  while_read zero ended turn = ended
  while_read (suc _) ended turn = turn

  -- With no answer left, the reader gives no byte, and the turn is the last.
  unfoldable pub read_ahead_loop :
      List ReadAnswer → List Race → List Timing → Buffers → Bool → ℕ → ℕ → Bytes → Relayed ℕ
  read_ahead_loop [] races writes buffers current current_len copied output =
      while_read current_len (flush_and_return flushed copied output) (
        read_ahead_turn (first_race races) (bytes []) (first_answer writes) buffers current
          current_len copied output
          (λ b i n copied' output'. flush_and_return flushed copied' output'))
  read_ahead_loop (answer ∷ reads) races writes buffers current current_len copied output =
      while_read current_len (flush_and_return flushed copied output) (
        read_ahead_turn (first_race races) answer (first_answer writes) buffers current current_len
          copied output
          (λ b i n copied' output'.
            read_ahead_loop reads (rest_races races) (rest_answers writes) b i n copied' output'))

  abbrev pub first_read : List ReadAnswer → ReadAnswer
  first_read [] = bytes []
  first_read (answer ∷ _) = answer

  abbrev pub rest_reads : List ReadAnswer → List ReadAnswer
  rest_reads [] = []
  rest_reads (_ ∷ reads) = reads

  unfoldable pub relay_copy_read_ahead_with_stall_timeout :
      List ReadAnswer → List Race → List Timing → Relayed ℕ
  unfolding read_ahead_loop
  relay_copy_read_ahead_with_stall_timeout reads races writes =
      read_done (read_buf (first_read reads) [])
        (λ n content.
          read_ahead_loop (rest_reads reads) races writes (record { zeroth = content; oneth = [] })
            false n 0 [])
        []
