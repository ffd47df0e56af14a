-- ===== src/Transport/UdpBatch/Progress.antt =====
-- What one attempt of the kernel leaves of a grouped transmit.
use zuicity.Prelude.{
  ℕ, zero, suc, ◌+◌, ◌≤◌, ◌<◌, ◌≡◌, ◌≢◌, refl, sym, ap, ◌∙◌, subst, List, [], ◌∷◌, Bool, true,
  false, arith, ◌==◌, ltb, if◌then◌else◌, length, take, drop, drop-drop, drop_all, length-drop,
  Outcome, ok, err, panic, inl, inr, Bool-cases, ltb→lt,
}
use zuicity.Prelude.Bytes.{Bytes}
use zuicity.Transport.UdpBatch.{
  ErrorKind, datagrams, datagram_lengths, datagram_count, sum, OwnedTransmit, is_empty, transmit,
  advance, ProgressDecision, complete, pending, Progress, moved, commit_prefix, short_write,
  recorded, record_sent, sent_prefix, full_prefix, write_zero,
}
use zuicity.Transport.UdpBatch.Chunks.{datagrams-drop, datagrams-nil}
use zuicity.Transport.UdpBatch.Report.{
  IsWholePrefix, Judged, too_many, short, nothing_sent, all_sent, some_sent,
  full_prefix-IsWholePrefix, prefix_len-datagrams, no_contents,
}

-- A decision is sound: `Complete` leaves nothing, `Pending` has made progress, and no panic.
abbrev pub Decided : ℕ → OwnedTransmit → Outcome ErrorKind ProgressDecision → Type 0
Decided count o (ok complete) = datagrams (transmit o) ≡ []
Decided count o (ok pending) = 0 < count
Decided count o (err e) = Unit {0}
Decided count o panic = ⊥

-- What is left of `o` behind `count` datagrams, which are those that the kernel reported whole.
pub record Committed (report : List ℕ) (o : OwnedTransmit) (p : Progress) : Type 0 where
  pub count : ℕ
  pub within : count ≤ datagram_count (transmit o)
  pub left : datagrams (transmit p.1) ≡ drop count (datagrams (transmit o))
  pub in_bounds : p.1.start ≤ length p.1.contents
  pub decided : Decided count p.1 p.0
  pub judged : Judged report (datagrams (transmit o)) count p.0

nil_of_length {ℓ} : {A : Type ℓ} (xs : List A) → length xs ≡ 0 → xs ≡ []
nil_of_length [] e = refl
nil_of_length (x ∷ xs) e = absurd (omega (arith, e))

abbrev advanced : OwnedTransmit → ℕ → OwnedTransmit
advanced o n = record o { start = o.start + n }

-- The bytes of `count` datagrams are passed over.
left-advanced :
    (o : OwnedTransmit) (count : ℕ)
    → datagrams (transmit (advanced o (sum (take count (datagram_lengths (transmit o))))))
      ≡ drop count (datagrams (transmit o))
left-advanced o count =
    let n = sum (take count (datagram_lengths (transmit o))) in
    ap (λ c. datagrams (record (transmit o) { contents = c }))
      (sym (drop-drop o.start n o.contents))
    ∙ datagrams-drop (transmit o) count

at_the_end : (o : OwnedTransmit) → is_empty o ≡ true → datagrams (transmit o) ≡ []
at_the_end o e =
    let same : o.start ≡ length o.contents = ground arith in
    datagrams-nil (transmit o) (drop_all o.start o.contents (omega arith))

not_at_the_end :
    (o : OwnedTransmit)
    → o.start ≤ length o.contents
    → is_empty o ≡ false
    → datagrams (transmit o) ≢ []
not_at_the_end o h e n =
    let differ : o.start ≢ length o.contents = ground arith in
    omega (arith, no_contents (transmit o) n, length-drop o.start o.contents)

-- The suffix behind `count` datagrams, and its start.
abbrev behind : OwnedTransmit → ℕ → OwnedTransmit
behind o count = advanced o (sum (take count (datagram_lengths (transmit o))))

behind-in_bounds :
    (o : OwnedTransmit) (count : ℕ)
    → o.start ≤ length o.contents
    → (behind o count).start ≤ length o.contents
behind-in_bounds o count h =
    omega (arith, prefix_len-datagrams (transmit o) count, length-drop o.start o.contents)

commit_prefix-moves :
    (o : OwnedTransmit) (count : ℕ)
    → o.start ≤ length o.contents
    → 0 < count
    → count ≤ datagram_count (transmit o)
    → commit_prefix o count
      ≡ (ok (if is_empty (behind o count) then complete else pending), behind o count)
unfolding commit_prefix moved advance
commit_prefix-moves o count h p w = ground (arith, h, p, w, behind-in_bounds o count h)

left_count :
    (o : OwnedTransmit) (count : ℕ)
    → datagrams (transmit (behind o count)) ≢ []
    → count < datagram_count (transmit o)
left_count o count n = elim (Bool-cases (ltb count (datagram_count (transmit o)))) [
  | inl l ↦ ltb→lt _ _ l
  | inr l ↦
      absurd (n (left-advanced o count ∙ drop_all count (datagrams (transmit o)) (ground arith)))
]

-- The report counts `count` datagrams, all of them whole.
all_whole :
    (report : List ℕ) (o : OwnedTransmit) (count : ℕ) (b : Bool)
    → o.start ≤ length o.contents
    → 0 < count
    → IsWholePrefix report (datagrams (transmit o)) count
    → count ≡ length report
    → is_empty (behind o count) ≡ b
    → Committed report o (ok (if b then complete else pending), behind o count)
all_whole report o count true h p w e z =
    let none_left = at_the_end (behind o count) z in
    record {
      count = count;
      within = w.offered;
      left = left-advanced o count;
      in_bounds = behind-in_bounds o count h;
      decided = none_left;
      judged =
          all_sent w e
            (omega (
              arith,
              w.offered,
              length-drop count (datagrams (transmit o)),
              ap (length {A = Bytes}) (sym (left-advanced o count) ∙ none_left),
            ))
            refl;
    }
all_whole report o count false h p w e z = record {
  count = count;
  within = w.offered;
  left = left-advanced o count;
  in_bounds = behind-in_bounds o count h;
  decided = p;
  judged =
      some_sent w e p
        (left_count o count (not_at_the_end (behind o count) (behind-in_bounds o count h) z)) refl;
}

empty_report :
    (report : List ℕ) (o : OwnedTransmit) (b : Bool)
    → o.start ≤ length o.contents
    → IsWholePrefix report (datagrams (transmit o)) 0
    → length report ≡ 0
    → (datagram_count (transmit o) == 0) ≡ b
    → Committed report o (if b then (ok complete, o) else (err write_zero, o))
empty_report report o true h w e z = record {
  count = 0;
  within = omega arith;
  left = refl;
  in_bounds = h;
  decided = nil_of_length (datagrams (transmit o)) (ground arith);
  judged = all_sent w (sym e) (ground arith) refl;
}
empty_report report o false h w e z = record {
  count = 0;
  within = omega arith;
  left = refl;
  in_bounds = h;
  decided = tt;
  judged = nothing_sent (nil_of_length report e) refl (λ n. ground (arith, n, z)) refl;
}

commit_prefix-zero :
    (o : OwnedTransmit)
    → commit_prefix o 0
      ≡ (if datagram_count (transmit o) == 0 then (ok complete, o) else (err write_zero, o))
unfolding commit_prefix
commit_prefix-zero o = ground arith

whole_report :
    (report : List ℕ) (o : OwnedTransmit) (count : ℕ)
    → o.start ≤ length o.contents
    → IsWholePrefix report (datagrams (transmit o)) count
    → count ≡ length report
    → Committed report o (commit_prefix o count)
whole_report report o zero h w e =
    subst (Committed report o) (sym (commit_prefix-zero o))
      (empty_report report o (datagram_count (transmit o) == 0) h w (sym e) refl)
whole_report report o (suc n) h w e =
    subst (Committed report o) (sym (commit_prefix-moves o (suc n) h (omega arith) w.offered))
      (all_whole report o (suc n) (is_empty (behind o (suc n))) h (omega arith) w e refl)

recorded-positive :
    (o : OwnedTransmit) (count : ℕ)
    → 0 < count
    → recorded o (ok (count, false)) ≡ short_write (commit_prefix o count)
unfolding recorded
recorded-positive o count p = ground (arith, p)

-- Behind `count` whole datagrams the report has a short one.
short_report :
    (report : List ℕ) (o : OwnedTransmit) (count : ℕ)
    → o.start ≤ length o.contents
    → IsWholePrefix report (datagrams (transmit o)) count
    → count < length report
    → Committed report o (recorded o (ok (count, false)))
unfolding recorded short_write
short_report report o zero h w l = record {
  count = 0;
  within = omega arith;
  left = refl;
  in_bounds = h;
  decided = tt;
  judged = short w l refl;
}
short_report report o (suc n) h w l =
    subst (Committed report o)
      (sym (
        recorded-positive o (suc n) (omega arith)
        ∙ ap short_write (commit_prefix-moves o (suc n) h (omega arith) w.offered)))
      (record {
        count = suc n;
        within = w.offered;
        left = left-advanced o (suc n);
        in_bounds = behind-in_bounds o (suc n) h;
        decided = tt;
        judged = short w l refl;
      })

judged_report :
    (report : List ℕ) (o : OwnedTransmit) (count : ℕ) (b : Bool)
    → o.start ≤ length o.contents
    → IsWholePrefix report (datagrams (transmit o)) count
    → (count == length report) ≡ b
    → Committed report o (recorded o (ok (count, b)))
unfolding recorded
judged_report report o count true h w e = whole_report report o count h w (ground arith)
judged_report report o count false h w e =
    let differ : count ≢ length report = ground arith in
    short_report report o count h w (omega (arith, w.reported))

sent_prefix-Committed :
    (report : List ℕ) (o : OwnedTransmit) (over : Bool)
    → o.start ≤ length o.contents
    → ltb (datagram_count (transmit o)) (length report) ≡ over
    → let full = full_prefix report (datagram_lengths (transmit o)) in
      Committed report o
        (recorded o (if over then err ErrorKind.invalid_data else ok (full, full == length report)))
unfolding recorded
sent_prefix-Committed report o true h e = record {
  count = 0;
  within = omega arith;
  left = refl;
  in_bounds = h;
  decided = tt;
  judged = too_many (ground arith) refl refl;
}
sent_prefix-Committed report o false h e =
    let full = full_prefix report (datagram_lengths (transmit o)) in
    judged_report report o full (full == length report) h
      (full_prefix-IsWholePrefix report (datagrams (transmit o))) refl

pub record_sent-Committed :
    (o : OwnedTransmit) (sent_lengths : List ℕ)
    → o.start ≤ length o.contents
    → Committed sent_lengths o (record_sent o sent_lengths)
unfolding record_sent sent_prefix
record_sent-Committed o sent_lengths h =
    sent_prefix-Committed sent_lengths o (ltb (datagram_count (transmit o)) (length sent_lengths)) h
      refl
