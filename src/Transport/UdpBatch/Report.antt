-- ===== src/Transport/UdpBatch/Report.antt =====
-- What the kernel reports of one attempt of `sendmmsg`, the number of bytes that it took of each
-- datagram, against the datagrams that were offered; and the decision that the report calls for.
use zuicity.Prelude.{
  ℕ, zero, suc, ◌≤◌, ◌<◌, ◌≡◌, ◌≢◌, refl, ap, List, [], ◌∷◌, Bool, true, false, arith, ◌==◌, length,
  length-append, take, drop, map, Outcome, ok, err, if◌then◌else◌,
}
use zuicity.Prelude.Bytes.{Bytes, concat}
use zuicity.Transport.UdpBatch.{
  ErrorKind, invalid_data, write_zero, PlainTransmit, datagrams, full_prefix, ProgressDecision,
  complete, pending,
}
use zuicity.Transport.UdpBatch.Chunks.{concat-datagrams, prefix_len}

-- The first `count` datagrams went out whole, and the next one that is reported did not.
pub record IsWholePrefix (report : List ℕ) (ds : List Bytes) (count : ℕ) : Type 0 where
  pub reported : count ≤ length report
  pub offered : count ≤ length ds
  pub whole : take count report ≡ map (length {A = ℕ}) (take count ds)
  pub maximal :
      (n : ℕ) (ns : List ℕ) (d : Bytes) (ds' : List Bytes)
      → drop count report ≡ n ∷ ns
      → drop count ds ≡ d ∷ ds'
      → n ≢ length d

-- The decision on a report, of which `count` datagrams are committed.
pub data Judged (report : List ℕ) (ds : List Bytes) (count : ℕ)
    (d : Outcome ErrorKind ProgressDecision) : Type 0 where
  too_many : length ds < length report → count ≡ 0 → d ≡ err invalid_data → Judged report ds count d
  short :
      IsWholePrefix report ds count
      → count < length report
      → d ≡ err write_zero
      → Judged report ds count d
  nothing_sent : report ≡ [] → count ≡ 0 → ds ≢ [] → d ≡ err write_zero → Judged report ds count d
  all_sent :
      IsWholePrefix report ds count
      → count ≡ length report
      → count ≡ length ds
      → d ≡ ok complete
      → Judged report ds count d
  some_sent :
      IsWholePrefix report ds count
      → count ≡ length report
      → 0 < count
      → count < length ds
      → d ≡ ok pending
      → Judged report ds count d

extended :
    (a k : ℕ) (d : Bytes) (report : List ℕ) (ds : List Bytes) (b : Bool)
    → IsWholePrefix report ds k
    → (a == length d) ≡ b
    → IsWholePrefix (a ∷ report) (d ∷ ds) (if b then suc k else 0)
extended a k d report ds true h e =
    let same : a ≡ length d = ground arith in
    record {
      reported = omega (arith, h.reported);
      offered = omega (arith, h.offered);
      whole = cc (same, h.whole);
      maximal = h.maximal;
    }
extended a k d report ds false h e = record {
  reported = omega arith;
  offered = omega arith;
  whole = refl;
  maximal = λ n ns d' ds' p q r. ground (arith, p, q, r, e);
}

pub full_prefix-IsWholePrefix :
    (report : List ℕ) (ds : List Bytes)
    → IsWholePrefix report ds (full_prefix report (map (length {A = ℕ}) ds))
full_prefix-IsWholePrefix [] ds = record {
  reported = omega arith;
  offered = omega arith;
  whole = refl;
  maximal = λ n ns d ds' p q r. ground (arith, p);
}
full_prefix-IsWholePrefix (a ∷ report) [] = record {
  reported = omega arith;
  offered = omega arith;
  whole = refl;
  maximal = λ n ns d ds' p q r. ground (arith, q);
}
full_prefix-IsWholePrefix (a ∷ report) (d ∷ ds) =
    extended a (full_prefix report (map (length {A = ℕ}) ds)) d report ds (a == length d)
      (full_prefix-IsWholePrefix report ds) refl

prefix_len-le : (k : ℕ) (cs : List Bytes) → prefix_len k cs ≤ length (concat cs)
prefix_len-le zero cs = omega arith
prefix_len-le (suc k) [] = omega arith
prefix_len-le (suc k) (c ∷ cs) = omega (arith, prefix_len-le k cs, length-append c (concat cs))

-- The bytes of a front part of the datagrams are within the bytes of the transmit.
pub prefix_len-datagrams :
    (t : PlainTransmit) (k : ℕ) → prefix_len k (datagrams t) ≤ length t.contents
prefix_len-datagrams t k =
    omega (arith, prefix_len-le k (datagrams t), ap (length {A = ℕ}) (concat-datagrams t))

-- A transmit with no datagram has no byte.
pub no_contents : (t : PlainTransmit) → datagrams t ≡ [] → length t.contents ≡ 0
no_contents t e = cc (concat-datagrams t, ap concat e)
