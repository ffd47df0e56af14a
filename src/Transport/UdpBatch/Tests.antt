-- ===== src/Transport/UdpBatch/Tests.antt =====
-- A grouped transmit of three datagrams.
use zuicity.Prelude.{◌<◌, ◌≡◌, ◌≢◌, refl, List, [], ◌∷◌, true, false, none, some, arith, ok, err}
use zuicity.Transport.Defs.{v4, SocketAddr}
use zuicity.Transport.UdpBatch.{
  PlainTransmit, chunks, datagrams, datagram_count, normalized_segment_size, new_transmit,
  sent_prefix, OwnedTransmit, copy_suffix, transmit, advance, moved, commit_prefix, recorded,
  record_sent, Counters, record_accepted, Round, would_block, out_of_memory, wait_outcome, resume,
  send_turn, send_suffix, send_rest, send_first, send,
}
use zuicity.Transport.UdpBatch.Ends.{send_suffix_ends}

abbrev peer : SocketAddr
peer = record { ip = v4 (1 ∷ 2 ∷ 3 ∷ 4 ∷ []); port = 53 }

-- Three datagrams of two bytes.
abbrev grouped : PlainTransmit
grouped = record {
  destination = peer;
  ecn = none;
  contents = 1 ∷ 2 ∷ 3 ∷ 4 ∷ 5 ∷ 6 ∷ [];
  segment_size = some 2;
  src_ip = none;
}

abbrev suffix : OwnedTransmit
suffix = record {
  destination = peer;
  ecn = none;
  contents = 1 ∷ 2 ∷ 3 ∷ 4 ∷ 5 ∷ 6 ∷ [];
  segment_size = some 2;
  src_ip = none;
  start = 2;
}

abbrev counters : Counters
counters = record { sendmmsg_datagrams = 0; partial_prefixes = 0 }

-- One datagram, then a block, then the other two.
abbrev blocked : List Round
blocked =
    record { attempt = err would_block; wait = ok tt }
    ∷ record { attempt = ok (2 ∷ 2 ∷ []); wait = ok tt }
    ∷ []

abbrev one_by_one : List Round
one_by_one =
    record { attempt = ok (2 ∷ []); wait = ok tt }
    ∷ record { attempt = ok (2 ∷ []); wait = ok tt }
    ∷ record { attempt = ok (2 ∷ []); wait = ok tt }
    ∷ []

sent_all : (send true (ok (2 ∷ [])) blocked grouped counters).outcome ≡ some (ok tt)
unfolding send new_transmit send_first send_rest send_suffix send_turn resume record_sent
    commit_prefix recorded moved advance wait_outcome sent_prefix copy_suffix record_accepted
    datagrams normalized_segment_size chunks
sent_all = refl

-- The first report is of a short datagram: the one before it counts, and the send ends.
short_send : (send true (ok (2 ∷ 1 ∷ [])) [] grouped counters).accepted ≡ (1 ∷ 2 ∷ []) ∷ []
unfolding send new_transmit send_first send_rest sent_prefix record_accepted datagrams
    normalized_segment_size chunks
short_send = refl

-- One of three datagrams is accepted, and there is no memory for the others.
unreserved_send : (send false (ok (2 ∷ [])) [] grouped counters).outcome ≡ some (err out_of_memory)
unfolding send new_transmit send_first send_rest sent_prefix copy_suffix record_accepted datagrams
    normalized_segment_size chunks
unreserved_send = refl

two_left : datagram_count (transmit suffix) < 3
unfolding datagrams normalized_segment_size chunks
two_left = omega arith

send_suffix_ends_example : (send_suffix one_by_one suffix [] counters).outcome ≢ none
send_suffix_ends_example =
    send_suffix_ends one_by_one suffix [] counters
      (ground arith, (ground arith, (ground arith, tt))) (omega arith) two_left
