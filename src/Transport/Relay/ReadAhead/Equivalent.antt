-- ===== src/Transport/Relay/ReadAhead/Equivalent.antt =====
-- The copy loop that reads ahead against the plain one.
use zuicity.Prelude.{ℕ, ◌+◌, [], ◌++◌, Bool, true, false, not, length, Outcome}
use zuicity.Prelude.Bytes.{Bytes}
use zuicity.Transport.Relay.{
  IoError, ReadAnswer, Timing, Relayed, after_write, write_all_with_stall_timeout,
}
use zuicity.Transport.Relay.ReadAhead.{Buffers, read_buf, read_done}

-- The buffer at the index `current` and the other one.
abbrev place : Bool → Bytes → Bytes → Buffers
place false held other = record { zeroth = held; oneth = other }
place true held other = record { zeroth = other; oneth = held }

module _ (flushed : Outcome IoError (Unit {0})) where
  -- A turn writes the current buffer whole and fills the other one from empty.
  abbrev turned :
      ReadAnswer
      → Timing
      → Bool
      → Bytes
      → ℕ
      → Bytes
      → (Buffers → Bool → ℕ → ℕ → Bytes → Relayed ℕ)
      → Relayed ℕ
  turned answer write current held copied output next =
      after_write flushed held output (write_all_with_stall_timeout write held) (
        read_done (read_buf answer [])
          (λ n content.
            next (place (not current) content held) (not current) n (copied + length held)
              (output ++ held))
          (output ++ held))
