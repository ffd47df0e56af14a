-- ===== src/Transport/UdpBatch/Ends.antt =====
-- When the loop over the owned suffix comes to an outcome.
use zuicity.Prelude.{
  ℕ, ◌-◌, ◌≤◌, ◌<◌, ◌≢◌, refl, ap, List, [], ◌∷◌, ◌++◌, none, arith, length, take, length-drop,
  Outcome, ok, err, panic,
}
use zuicity.Prelude.Bytes.{Bytes}
use zuicity.Transport.UdpBatch.{
  ErrorKind, datagrams, datagram_count, OwnedTransmit, transmit, ProgressDecision, complete,
  pending, resume, send_turn, would_block, record_sent, Counters, record_accepted, Round, Sent,
  after_progress, send_suffix,
}
use zuicity.Transport.UdpBatch.Progress.{Decided, record_sent-Committed}

-- No attempt is answered with `WouldBlock`.
abbrev pub Unblocked : List Round → Type 0
Unblocked [] = Unit {0}
Unblocked (r ∷ rounds) = (r.attempt ≢ err would_block) × Unblocked rounds

-- The rest of the loop ends from any suffix with fewer datagrams.
abbrev EndsBelow : ℕ → (OwnedTransmit → List Bytes → Counters → Sent) → Type 0
EndsBelow n again =
    (o : OwnedTransmit) (sent : List Bytes) (c : Counters)
    → o.start ≤ length o.contents
    → datagram_count (transmit o) < n
    → (again o sent c).outcome ≢ none

progress_ends :
    (d : Outcome ErrorKind ProgressDecision) (count : ℕ) (o : OwnedTransmit) (again : Sent)
    (sent : List Bytes) (c : Counters)
    → Decided count o d
    → (0 < count → again.outcome ≢ none)
    → (resume (after_progress d) again sent c).outcome ≢ none
unfolding resume
progress_ends (ok complete) count o again sent c h f = λ i. ground (arith, i)
progress_ends (ok pending) count o again sent c h f = f h
progress_ends (err k) count o again sent c h f = λ i. ground (arith, i)
progress_ends panic count o again sent c h f = absurd h

send_turn_ends :
    (attempt : Outcome ErrorKind (List ℕ)) (wait : Outcome ErrorKind (Unit {0}))
    (again : OwnedTransmit → List Bytes → Counters → Sent) (o : OwnedTransmit) (sent : List Bytes)
    (c : Counters)
    → attempt ≢ err would_block
    → o.start ≤ length o.contents
    → EndsBelow (datagram_count (transmit o)) again
    → (send_turn attempt wait again o sent c).outcome ≢ none
unfolding send_turn
send_turn_ends (ok sent_lengths) wait again o sent c b h f =
    let p = record_sent o sent_lengths in
    let m = record_sent-Committed o sent_lengths h in
    let ds = datagrams (transmit o) in
    let ds' = datagrams (transmit p.1) in
    let sent' = sent ++ take (length ds - length ds') ds in
    let c' = record_accepted c (length ds) (length ds - length ds') in
    progress_ends p.0 m.count p.1 (again p.1 sent' c') sent' c' m.decided (λ pos.
      f p.1 sent' c' m.in_bounds
        (omega (arith, length-drop m.count ds, ap (length {A = Bytes}) m.left, m.within)))
send_turn_ends (err would_block) wait again o sent c b h f = absurd (b refl)
send_turn_ends (err k) wait again o sent c b h f = λ i. ground (arith, i)
send_turn_ends panic wait again o sent c b h f = λ i. ground (arith, i)

-- From a suffix whose start is within its bytes, with more rounds than remaining datagrams and no
-- attempt blocked, the loop comes to an outcome, whatever the kernel answers.
pub send_suffix_ends :
    (rounds : List Round) (o : OwnedTransmit) (sent : List Bytes) (c : Counters)
    → Unblocked rounds
    → o.start ≤ length o.contents
    → datagram_count (transmit o) < length rounds
    → (send_suffix rounds o sent c).outcome ≢ none
unfolding send_suffix
send_suffix_ends [] o sent c u h l = absurd (omega arith)
send_suffix_ends (r ∷ rounds) o sent c u h l =
    send_turn_ends r.attempt r.wait (send_suffix rounds) o sent c u.0 h
      (λ o' sent' c' h' l'. send_suffix_ends rounds o' sent' c' u.1 h' (omega arith))
