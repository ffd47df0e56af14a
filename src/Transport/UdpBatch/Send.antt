-- ===== src/Transport/UdpBatch/Send.antt =====
-- `udp_plain_direct::send` against the relation of what a send does.
use zuicity.Prelude.{ℕ, List, Bool, take, drop, Outcome}
use zuicity.Prelude.Bytes.{Bytes}
use zuicity.Transport.UdpBatch.{
  ErrorKind, PlainTransmit, datagrams, datagram_lengths, datagram_count, sum, OwnedTransmit,
  Counters, record_accepted, Round, Sent,
}
use zuicity.Transport.UdpBatch.Runs.{Starts}

abbrev suffix : PlainTransmit → ℕ → OwnedTransmit
suffix t count = record {
  destination = t.destination;
  ecn = t.ecn;
  contents = drop (sum (take count (datagram_lengths t))) t.contents;
  segment_size = t.segment_size;
  src_ip = t.src_ip;
  start = 0;
}

-- The five ways behind the first report.
module _ (reserved : Bool) (rounds : List Round) (t : PlainTransmit) (c : Counters)
    (count n : ℕ) where
  abbrev counted : Counters
  counted = record_accepted c (datagram_count t) count

  abbrev prefix : List Bytes
  prefix = take count (datagrams t)

abbrev Started : Bool → Outcome ErrorKind (List ℕ) → List Round → List Bytes → Sent → Type 0
Started reserved first rounds ds s = Starts reserved first rounds ds s.accepted s.outcome
