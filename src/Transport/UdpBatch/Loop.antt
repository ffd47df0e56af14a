-- ===== src/Transport/UdpBatch/Loop.antt =====
-- The loop over the owned suffix against the relation `Runs`.
use zuicity.Prelude.{
  ℕ, ◌-◌, ◌≤◌, ◌≡◌, ◌≢◌, refl, sym, ap, ◌∙◌, subst, List, [], ◌∷◌, ◌++◌, some, arith, length, take,
  drop, length-drop, Outcome, ok, err, panic, append_assoc, append-nil,
}
use zuicity.Prelude.Bytes.{Bytes}
use zuicity.Transport.UdpBatch.{
  ErrorKind, datagrams, datagram_count, OwnedTransmit, transmit, ProgressDecision, complete,
  pending, resume, send_turn, would_block, record_sent, Counters, record_accepted, Round, Sent,
  ended, wait_outcome, after_progress, send_suffix,
}
use zuicity.Transport.UdpBatch.Progress.{Decided, Committed, record_sent-Committed}
use zuicity.Transport.UdpBatch.Report.{Judged}
use zuicity.Transport.UdpBatch.Runs.{
  Runs, out_of_rounds, sent_all, refused, went_on, blocked, wait_blocked, wait_failed,
  wait_panicked, failed, panicked,
}

-- A loop with `ds` to send, behind the datagrams `sent`.
pub record Continued (ds : List Bytes) (rounds : List Round) (sent : List Bytes) (s : Sent)
    : Type 0 where
  pub out : List Bytes
  pub accepted : s.accepted ≡ sent ++ out
  pub run : Runs ds rounds out s.outcome

-- What a round needs of the rest of the loop.
abbrev pub GoesOn : List Round → (OwnedTransmit → List Bytes → Counters → Sent) → Type 0
GoesOn rounds again =
    (o : OwnedTransmit) (sent : List Bytes) (c : Counters)
    → o.start ≤ length o.contents
    → Continued (datagrams (transmit o)) rounds sent (again o sent c)

-- Nothing more is accepted.
stopped :
    (ds sent : List Bytes) (rounds : List Round) (o : Outcome ErrorKind (Unit {0})) (c : Counters)
    → Runs ds rounds [] (some o)
    → Continued ds rounds sent (ended o sent c)
stopped ds sent rounds o c r = record { out = []; accepted = sym (append-nil sent); run = r }

abbrev round : Outcome ErrorKind (List ℕ) → Outcome ErrorKind (Unit {0}) → Round
round attempt wait = record { attempt = attempt; wait = wait }

-- The decision on a report of which `count` datagrams are committed.
decided-Continued :
    (report : List ℕ) (wait : Outcome ErrorKind (Unit {0})) (rounds : List Round)
    (ds sent sent' : List Bytes) (count : ℕ) (d : Outcome ErrorKind ProgressDecision) (again : Sent)
    (c : Counters)
    → d ≢ panic
    → Judged report ds count d
    → sent' ≡ sent ++ take count ds
    → Continued (drop count ds) rounds sent' again
    → Continued ds (round (ok report) wait ∷ rounds) sent (resume (after_progress d) again sent' c)
unfolding resume
decided-Continued report wait rounds ds sent sent' count (ok complete) again c n j e k = record {
  out = take count ds;
  accepted = e;
  run = sent_all refl j;
}
decided-Continued report wait rounds ds sent sent' count (ok pending) again c n j e k = record {
  out = take count ds ++ k.out;
  accepted =
      k.accepted ∙ ap (λ (b : List Bytes). b ++ k.out) e ∙ append_assoc sent (take count ds) k.out;
  run = went_on refl j k.run;
}
decided-Continued report wait rounds ds sent sent' count (err x) again c n j e k = record {
  out = take count ds;
  accepted = e;
  run = refused refl j;
}
decided-Continued report wait rounds ds sent sent' count panic again c n j e k = absurd (n refl)

Decided-ne-panic :
    (count : ℕ) (o : OwnedTransmit) (d : Outcome ErrorKind ProgressDecision)
    → Decided count o d
    → d ≢ panic
Decided-ne-panic count o (ok complete) h = λ i. ground (arith, i)
Decided-ne-panic count o (ok pending) h = λ i. ground (arith, i)
Decided-ne-panic count o (err e) h = λ i. ground (arith, i)
Decided-ne-panic count o panic h = absurd h

-- The number that the code computes is that of the committed datagrams.
progress_count :
    (report : List ℕ) (o : OwnedTransmit) (m : Committed report o (record_sent o report))
    → datagram_count (transmit o) - datagram_count (transmit (record_sent o report).1) ≡ m.count
progress_count report o m =
    omega (
      arith,
      length-drop m.count (datagrams (transmit o)),
      ap (length {A = Bytes}) m.left,
      m.within,
    )

waited-Continued :
    (wait : Outcome ErrorKind (Unit {0})) (rounds : List Round) (ds sent : List Bytes)
    (again : Sent) (c : Counters)
    → Continued ds rounds sent again
    → Continued ds
        (round (err would_block) wait ∷ rounds)
        sent
        (resume (wait_outcome wait) again sent c)
unfolding resume wait_outcome
waited-Continued (ok tt) rounds ds sent again c k = record {
  out = k.out;
  accepted = k.accepted;
  run = blocked refl refl k.run;
}
waited-Continued (err would_block) rounds ds sent again c k =
    stopped ds sent _ _ c (wait_blocked refl refl)
waited-Continued (err e) rounds ds sent again c k =
    stopped ds sent _ _ c (wait_failed refl refl (λ i. ground (arith, i)))
waited-Continued panic rounds ds sent again c k = stopped ds sent _ _ c (wait_panicked refl refl)

send_turn-Continued :
    (attempt : Outcome ErrorKind (List ℕ)) (wait : Outcome ErrorKind (Unit {0}))
    (rounds : List Round) (again : OwnedTransmit → List Bytes → Counters → Sent)
    → GoesOn rounds again
    → GoesOn (round attempt wait ∷ rounds) (send_turn attempt wait again)
unfolding send_turn
send_turn-Continued (ok report) wait rounds again f o sent c h =
    let p = record_sent o report in
    let m = record_sent-Committed o report h in
    let ds = datagrams (transmit o) in
    let taken = length ds - length (datagrams (transmit p.1)) in
    let sent' = sent ++ take taken ds in
    let c' = record_accepted c (length ds) taken in
    decided-Continued report wait rounds ds sent sent' m.count p.0 (again p.1 sent' c') c'
      (Decided-ne-panic m.count p.1 p.0 m.decided) m.judged
      (ap (λ k. sent ++ take k ds) (progress_count report o m))
      (subst (λ (l : List Bytes). Continued l rounds sent' (again p.1 sent' c')) m.left
        (f p.1 sent' c' m.in_bounds))
send_turn-Continued (err would_block) wait rounds again f o sent c h =
    waited-Continued wait rounds (datagrams (transmit o)) sent (again o sent c) c (f o sent c h)
send_turn-Continued (err k) wait rounds again f o sent c h =
    stopped (datagrams (transmit o)) sent _ _ c (failed refl (λ i. ground (arith, i)))
send_turn-Continued panic wait rounds again f o sent c h =
    stopped (datagrams (transmit o)) sent _ _ c (panicked refl)

pub send_suffix-Continued : (rounds : List Round) → GoesOn rounds (send_suffix rounds)
unfolding send_suffix
send_suffix-Continued [] o sent c h = record {
  out = [];
  accepted = sym (append-nil sent);
  run = out_of_rounds;
}
send_suffix-Continued (r ∷ rounds) o sent c h =
    send_turn-Continued r.attempt r.wait rounds (send_suffix rounds) (send_suffix-Continued rounds)
      o sent c h
