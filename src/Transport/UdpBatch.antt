-- ===== src/Transport/UdpBatch.antt =====
-- crates/zuicity-transport/src/udp_plain_batch.rs and udp_plain_direct.rs: ordinary UDP datagrams of
-- one grouped transmit, sent by `sendmmsg`, with the suffix owned after a partial acceptance.
-- Whether `try_reserve_exact` finds memory for the suffix is the argument `reserved`.
pub mod Chunks
pub mod Report
pub mod Progress
pub mod Runs
pub mod Loop
pub mod Send
pub mod Ends
mod Tests
use zuicity.Prelude.{
  ℕ, zero, suc, ◌+◌, ◌-◌, ◌%◌, ◌^◌, not, ◌||◌, ◌++◌, List, [], ◌∷◌, Bool, true, false, Option, none,
  some, ◌==◌, ltb, leb, if◌then◌else◌, length, take, drop, map, Outcome, ok, err, panic, ◌>>=◌,
}
use zuicity.Prelude.Bytes.{Bytes}
use zuicity.Transport.Defs.{IpAddr, SocketAddr}

-- `io::ErrorKind`, as far as the code tells them apart.
pub data ErrorKind : Type 0 where
  invalid_input invalid_data write_zero would_block interrupted timed_out broken_pipe out_of_memory
        other_kind :
      ErrorKind

abbrev pub max_plain_batch_datagrams : ℕ
max_plain_batch_datagrams = 128

pub record PlainTransmit : Type 0 where
  pub destination : SocketAddr
  pub ecn : Option ℕ
  pub contents : Bytes
  pub segment_size : Option ℕ
  pub src_ip : Option IpAddr

-- `slice.chunks(size)`, in at most `fuel` chunks.
pub chunks : ℕ → ℕ → Bytes → List Bytes
chunks zero size bytes = []
chunks (suc fuel) size [] = []
chunks (suc fuel) size (b ∷ bytes) =
    take size (b ∷ bytes) ∷ chunks fuel size (drop size (b ∷ bytes))

-- `.max(1)`
abbrev pub at_least_one : ℕ → ℕ
at_least_one zero = 1
at_least_one (suc n) = suc n

abbrev pub unwrap_or : Option ℕ → ℕ → ℕ
unwrap_or none n = n
unwrap_or (some m) n = m

unfoldable pub normalized_segment_size : PlainTransmit → ℕ
normalized_segment_size t = at_least_one (unwrap_or t.segment_size (length t.contents))

-- A chunk has at least one byte, so the length is fuel enough.
unfoldable pub datagrams : PlainTransmit → List Bytes
datagrams t = chunks (length t.contents) (normalized_segment_size t) t.contents

abbrev pub datagram_lengths : PlainTransmit → List ℕ
datagram_lengths t = map (length {A = ℕ}) (datagrams t)

abbrev pub datagram_count : PlainTransmit → ℕ
datagram_count t = length (datagrams t)

abbrev pub sum : List ℕ → ℕ
sum [] = 0
sum (n ∷ ns) = n + sum ns

-- `PlainTransmit::new`
unfoldable pub new_transmit : PlainTransmit → Outcome ErrorKind PlainTransmit
new_transmit t =
    if ltb max_plain_batch_datagrams (datagram_count t) then err invalid_input else ok t

-- `iter().zip(…).take_while(equal).count()`
abbrev pub full_prefix : List ℕ → List ℕ → ℕ
full_prefix [] expected = 0
full_prefix (a ∷ actual) [] = 0
full_prefix (a ∷ actual) (e ∷ expected) =
    let rest = full_prefix actual expected in if a == e then suc rest else 0

-- How many datagrams the kernel took whole, and whether these are all that it took.
unfoldable pub sent_prefix : PlainTransmit → List ℕ → Outcome ErrorKind (ℕ × Bool)
sent_prefix t sent_lengths =
    if ltb (datagram_count t) (length sent_lengths)
    then err invalid_data
    else let full = full_prefix sent_lengths (datagram_lengths t) in
      ok (full, full == length sent_lengths)

pub record OwnedTransmit : Type 0 where
  pub destination : SocketAddr
  pub ecn : Option ℕ
  pub contents : Bytes
  pub segment_size : Option ℕ
  pub src_ip : Option IpAddr
  pub start : ℕ

-- `OwnedTransmit::copy_suffix`; `contents.get(accepted..)` is `None` past the end.
unfoldable pub copy_suffix : Bool → PlainTransmit → ℕ → Outcome ErrorKind OwnedTransmit
copy_suffix reserved t count =
    if ltb (datagram_count t) count
    then err invalid_data
    else let accepted = sum (take count (datagram_lengths t)) in
      if ltb (length t.contents) accepted
      then err invalid_data
      else if not reserved
      then err out_of_memory
      else ok (record {
        destination = t.destination;
        ecn = t.ecn;
        contents = drop accepted t.contents;
        segment_size = t.segment_size;
        src_ip = t.src_ip;
        start = 0;
      })

abbrev pub is_empty : OwnedTransmit → Bool
is_empty o = o.start == length o.contents

-- `&contents[start..]`: `start` never passes the end.
abbrev pub transmit : OwnedTransmit → PlainTransmit
transmit o = record {
  destination = o.destination;
  ecn = o.ecn;
  contents = drop o.start o.contents;
  segment_size = o.segment_size;
  src_ip = o.src_ip;
}

unfoldable pub advance : OwnedTransmit → ℕ → Outcome ErrorKind OwnedTransmit
advance o bytes =
    if leb (o.start + bytes) (length o.contents)
    then ok (record o { start = o.start + bytes })
    else err invalid_data

pub data ProgressDecision : Type 0 where
  complete pending : ProgressDecision

-- The decision behind `advance(…)?`, and the transmit that is left.
abbrev pub Progress : Type 0
Progress = Outcome ErrorKind ProgressDecision × OwnedTransmit

moved : OwnedTransmit → Outcome ErrorKind OwnedTransmit → Progress
moved o (ok o') = (ok (if is_empty o' then complete else pending), o')
moved o (err e) = (err e, o)
moved o panic = (panic, o)

-- `BatchProgress::commit_prefix`
unfoldable pub commit_prefix : OwnedTransmit → ℕ → Progress
unfolding moved
commit_prefix o count =
    let offered = datagram_count (transmit o) in
    if ltb offered count
    then (err invalid_data, o)
    else if count == 0
    then (if offered == 0 then (ok complete, o) else (err write_zero, o))
    else moved o (advance o (sum (take count (datagram_lengths (transmit o)))))

-- A short datagram ends the send, behind the prefix that went out whole.
short_write : Progress → Progress
short_write (ok _, o) = (err write_zero, o)
short_write (err e, o) = (err e, o)
short_write (panic, o) = (panic, o)

recorded : OwnedTransmit → Outcome ErrorKind (ℕ × Bool) → Progress
recorded o (ok (full, true)) = commit_prefix o full
recorded o (ok (full, false)) =
    if ltb 0 full then short_write (commit_prefix o full) else (err write_zero, o)
recorded o (err e) = (err e, o)
recorded o panic = (panic, o)

-- `BatchProgress::record_sent`
unfoldable pub record_sent : OwnedTransmit → List ℕ → Progress
unfolding short_write recorded
record_sent o sent_lengths = recorded o (sent_prefix (transmit o) sent_lengths)

-- `PlainSendCounters`, each an `AtomicCounter64`.
pub record Counters : Type 0 where
  pub sendmmsg_datagrams : ℕ
  pub partial_prefixes : ℕ

unfoldable pub record_accepted : Counters → ℕ → ℕ → Counters
record_accepted c offered accepted = if accepted == 0 then c else record c {
  sendmmsg_datagrams = (c.sendmmsg_datagrams + accepted) % 2 ^ 64;
  partial_prefixes =
      if ltb accepted offered then (c.partial_prefixes + 1) % 2 ^ 64 else c.partial_prefixes;
}

-- What the kernel does in one round: the outcome of `io.attempt`, the lengths that it sent or an
-- error, and of `io.wait_writable`, which is asked after `WouldBlock`.
pub record Round : Type 0 where
  pub attempt : Outcome ErrorKind (List ℕ)
  pub wait : Outcome ErrorKind (Unit {0})

-- How a send ended, `none` where the rounds ended first, with the datagrams that were counted as
-- accepted, in order, and the counters.
pub record Sent : Type 0 where
  pub outcome : Option (Outcome ErrorKind (Unit {0}))
  pub accepted : List Bytes
  pub counters : Counters

abbrev pub ended : Outcome ErrorKind (Unit {0}) → List Bytes → Counters → Sent
ended o accepted c = record { outcome = some o; accepted = accepted; counters = c }

abbrev pub is_would_block : ErrorKind → Bool
is_would_block would_block = true
is_would_block _ = false

-- After `WouldBlock`: none is to go on, else how the send ends.
unfoldable pub wait_outcome : Outcome ErrorKind (Unit {0}) → Option (Outcome ErrorKind (Unit {0}))
wait_outcome (ok _) = none
wait_outcome (err e) = some (err (if is_would_block e then timed_out else e))
wait_outcome panic = some panic

abbrev after_progress : Outcome ErrorKind ProgressDecision → Option (Outcome ErrorKind (Unit {0}))
after_progress (ok complete) = some (ok tt)
after_progress (ok pending) = none
after_progress (err e) = some (err e)
after_progress panic = some panic

-- Ends the send, or goes on.
resume : Option (Outcome ErrorKind (Unit {0})) → Sent → List Bytes → Counters → Sent
resume none again sent c = again
resume (some end) again sent c = ended end sent c

-- One turn of the loop over the owned suffix: the attempt, the wait, and the rest of the loop.
send_turn :
    Outcome ErrorKind (List ℕ)
    → Outcome ErrorKind (Unit {0})
    → (OwnedTransmit → List Bytes → Counters → Sent)
    → OwnedTransmit
    → List Bytes
    → Counters
    → Sent
unfolding resume
send_turn (ok sent_lengths) wait again o sent c =
    let (decision, o') = record_sent o sent_lengths in
    let offered = datagram_count (transmit o) in
    let accepted = offered - datagram_count (transmit o') in
    let sent' = sent ++ take accepted (datagrams (transmit o)) in
    let c' = record_accepted c offered accepted in
    resume (after_progress decision) (again o' sent' c') sent' c'
send_turn (err e) wait again o sent c =
    if is_would_block e
    then resume (wait_outcome wait) (again o sent c) sent c
    else ended (err e) sent c
send_turn panic wait again o sent c = ended panic sent c

-- The loop, behind the datagrams accepted so far.
unfoldable pub send_suffix : List Round → OwnedTransmit → List Bytes → Counters → Sent
unfolding send_turn
send_suffix [] o sent c = record { outcome = none; accepted = sent; counters = c }
send_suffix (r ∷ rounds) o sent c =
    send_turn r.attempt r.wait (λ o' sent' c'. send_suffix rounds o' sent' c') o sent c

-- Behind the first attempt: the prefix that it accepted, and whether it was all that went out.
send_rest : Bool → List Round → PlainTransmit → Counters → ℕ × Bool → Sent
send_rest reserved rounds t c (accepted, all_full) =
    let offered = datagram_count t in
    let c' = record_accepted c offered accepted in
    let sent = take accepted (datagrams t) in
    if not all_full || accepted == 0
    then ended (err write_zero) sent c'
    else if accepted == offered
    then ended (ok tt) sent c'
    else elim (copy_suffix reserved t accepted) [
      | ok o ↦ send_suffix rounds o sent c'
      | err e ↦ ended (err e) sent c'
      | panic ↦ ended panic sent c'
    ]

send_first : Bool → List Round → PlainTransmit → Counters → Outcome ErrorKind (List ℕ) → Sent
send_first reserved rounds t c (ok sent_lengths) = elim (sent_prefix t sent_lengths) [
  | ok prefix ↦ send_rest reserved rounds t c prefix
  | err e ↦ ended (err e) [] c
  | panic ↦ ended panic [] c
]
send_first reserved rounds t c (err e) = ended (err e) [] c
send_first reserved rounds t c panic = ended panic [] c

-- `udp_plain_direct::send`; `first` is what the kernel does with the first attempt.
unfoldable pub send :
    Bool → Outcome ErrorKind (List ℕ) → List Round → PlainTransmit → Counters → Sent
unfolding send_rest send_first
send reserved first rounds t c = elim (new_transmit t) [
  | ok t' ↦ send_first reserved rounds t' c first
  | err e ↦ ended (err e) [] c
  | panic ↦ ended panic [] c
]
