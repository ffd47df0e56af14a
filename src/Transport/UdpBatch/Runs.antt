-- ===== src/Transport/UdpBatch/Runs.antt =====
-- What a send of grouped datagrams does, as a relation on lists of datagrams: what the kernel
-- reports of each attempt, which datagrams are accepted by it, and how the send ends. It has no
-- bytes, offsets or counters.
use zuicity.Prelude.{
  ℕ, ◌≤◌, ◌<◌, ◌≡◌, ◌≢◌, refl, ap, ◌∙◌, List, [], ◌∷◌, ◌++◌, Bool, true, false, Option, none, some,
  arith, length, take, drop, take-append-drop, drop_all, Outcome, ok, err, panic, append_assoc,
}
use zuicity.Prelude.Bytes.{Bytes}
use zuicity.Transport.UdpBatch.{
  ErrorKind, invalid_input, invalid_data, write_zero, would_block, out_of_memory, timed_out,
  complete, pending, Round, max_plain_batch_datagrams,
}
use zuicity.Transport.UdpBatch.Report.{
  IsWholePrefix, Judged, too_many, short, nothing_sent, all_sent, some_sent,
}

abbrev pub Ending : Type 0
Ending = Option (Outcome ErrorKind (Unit {0}))

-- The loop with `ds` left to send, over rounds of the kernel: the datagrams that it accepts, and
-- how it ends.
pub data Runs : List Bytes → List Round → List Bytes → Ending → Type 0 where
  out_of_rounds : {ds : List Bytes} → Runs ds [] [] none
  sent_all :
      {ds : List Bytes} {r : Round} {rounds : List Round} {report : List ℕ} {count : ℕ}
      → r.attempt ≡ ok report
      → Judged report ds count (ok complete)
      → Runs ds (r ∷ rounds) (take count ds) (some (ok tt))
  refused :
      {ds : List Bytes} {r : Round} {rounds : List Round} {report : List ℕ} {count : ℕ}
      {e : ErrorKind}
      → r.attempt ≡ ok report
      → Judged report ds count (err e)
      → Runs ds (r ∷ rounds) (take count ds) (some (err e))
  went_on :
      {ds out : List Bytes} {r : Round} {rounds : List Round} {report : List ℕ} {count : ℕ}
      {end : Ending}
      → r.attempt ≡ ok report
      → Judged report ds count (ok pending)
      → Runs (drop count ds) rounds out end
      → Runs ds (r ∷ rounds) (take count ds ++ out) end
  blocked :
      {ds out : List Bytes} {r : Round} {rounds : List Round} {end : Ending}
      → r.attempt ≡ err would_block
      → r.wait ≡ ok tt
      → Runs ds rounds out end
      → Runs ds (r ∷ rounds) out end
  wait_blocked :
      {ds : List Bytes} {r : Round} {rounds : List Round}
      → r.attempt ≡ err would_block
      → r.wait ≡ err would_block
      → Runs ds (r ∷ rounds) [] (some (err timed_out))
  wait_failed :
      {ds : List Bytes} {r : Round} {rounds : List Round} {e : ErrorKind}
      → r.attempt ≡ err would_block
      → r.wait ≡ err e
      → e ≢ would_block
      → Runs ds (r ∷ rounds) [] (some (err e))
  wait_panicked :
      {ds : List Bytes} {r : Round} {rounds : List Round}
      → r.attempt ≡ err would_block
      → r.wait ≡ panic
      → Runs ds (r ∷ rounds) [] (some panic)
  failed :
      {ds : List Bytes} {r : Round} {rounds : List Round} {e : ErrorKind}
      → r.attempt ≡ err e
      → e ≢ would_block
      → Runs ds (r ∷ rounds) [] (some (err e))
  panicked :
      {ds : List Bytes} {r : Round} {rounds : List Round}
      → r.attempt ≡ panic
      → Runs ds (r ∷ rounds) [] (some panic)

-- A send of `ds` that fits: the first attempt, and the loop behind a part of it.
pub data Starts (reserved : Bool) (first : Outcome ErrorKind (List ℕ)) (rounds : List Round)
    (ds : List Bytes) : List Bytes → Ending → Type 0 where
  first_failed : {e : ErrorKind} → first ≡ err e → Starts reserved first rounds ds [] (some (err e))
  first_panicked : first ≡ panic → Starts reserved first rounds ds [] (some panic)
  first_too_many :
      {report : List ℕ}
      → first ≡ ok report
      → length ds < length report
      → Starts reserved first rounds ds [] (some (err invalid_data))
  first_short :
      {report : List ℕ} {count : ℕ}
      → first ≡ ok report
      → IsWholePrefix report ds count
      → count < length report
      → Starts reserved first rounds ds (take count ds) (some (err write_zero))
  first_nothing :
      {report : List ℕ}
      → first ≡ ok report
      → length report ≡ 0
      → Starts reserved first rounds ds [] (some (err write_zero))
  first_all :
      {report : List ℕ} {count : ℕ}
      → first ≡ ok report
      → IsWholePrefix report ds count
      → count ≡ length report
      → 0 < count
      → count ≡ length ds
      → Starts reserved first rounds ds (take count ds) (some (ok tt))
  first_unreserved :
      {report : List ℕ} {count : ℕ}
      → first ≡ ok report
      → IsWholePrefix report ds count
      → count ≡ length report
      → 0 < count
      → count < length ds
      → reserved ≡ false
      → Starts reserved first rounds ds (take count ds) (some (err out_of_memory))
  first_part :
      {report : List ℕ} {count : ℕ} {out : List Bytes} {end : Ending}
      → first ≡ ok report
      → IsWholePrefix report ds count
      → count ≡ length report
      → 0 < count
      → count < length ds
      → reserved ≡ true
      → Runs (drop count ds) rounds out end
      → Starts reserved first rounds ds (take count ds ++ out) end

pub data Delivers (reserved : Bool) (first : Outcome ErrorKind (List ℕ)) (rounds : List Round)
    (ds : List Bytes) : List Bytes → Ending → Type 0 where
  over_capacity :
      max_plain_batch_datagrams < length ds
      → Delivers reserved first rounds ds [] (some (err invalid_input))
  fits :
      {out : List Bytes} {end : Ending}
      → length ds ≤ max_plain_batch_datagrams
      → Starts reserved first rounds ds out end
      → Delivers reserved first rounds ds out end

-- The accepted datagrams are a prefix of all of them, and all of them where the send succeeded.
pub record IsPrefixOf (all accepted : List Bytes) (end : Ending) : Type 0 where
  pub rest : List Bytes
  pub split : accepted ++ rest ≡ all
  pub finished : end ≡ some (ok tt) → rest ≡ []

nothing_accepted : (ds : List Bytes) (end : Ending) → end ≢ some (ok tt) → IsPrefixOf ds [] end
nothing_accepted ds end n = record { rest = ds; split = refl; finished = λ e. absurd (n e) }

some_accepted :
    (ds : List Bytes) (count : ℕ) (end : Ending)
    → (end ≡ some (ok tt) → length ds ≤ count)
    → IsPrefixOf ds (take count ds) end
some_accepted ds count end f = record {
  rest = drop count ds;
  split = take-append-drop count ds;
  finished = λ e. drop_all count ds (f e);
}

more_accepted :
    (ds out : List Bytes) (count : ℕ) (end : Ending)
    → IsPrefixOf (drop count ds) out end
    → IsPrefixOf ds (take count ds ++ out) end
more_accepted ds out count end p = record {
  rest = p.rest;
  split =
      append_assoc (take count ds) out p.rest
      ∙ ap (◌++◌ (take count ds)) p.split
      ∙ take-append-drop count ds;
  finished = p.finished;
}

complete-all :
    (report : List ℕ) (ds : List Bytes) (count : ℕ)
    → Judged report ds count (ok complete)
    → length ds ≤ count
complete-all report ds count (too_many h e d) = absurd (ground (arith, d))
complete-all report ds count (short w h d) = absurd (ground (arith, d))
complete-all report ds count (nothing_sent r e n d) = absurd (ground (arith, d))
complete-all report ds count (all_sent w r e d) = omega (arith, e)
complete-all report ds count (some_sent w r p l d) = absurd (ground (arith, d))

Runs-IsPrefixOf :
    {ds out : List Bytes} {rounds : List Round} {end : Ending}
    → Runs ds rounds out end
    → IsPrefixOf ds out end
Runs-IsPrefixOf out_of_rounds = nothing_accepted _ none (λ i. ground (arith, i))
Runs-IsPrefixOf (sent_all e j) = some_accepted _ _ _ (λ _. complete-all _ _ _ j)
Runs-IsPrefixOf (refused e j) = some_accepted _ _ _ (λ i. absurd (ground (arith, i)))
Runs-IsPrefixOf (went_on e j run) = more_accepted _ _ _ _ (Runs-IsPrefixOf run)
Runs-IsPrefixOf (blocked e w run) = Runs-IsPrefixOf run
Runs-IsPrefixOf (wait_blocked e w) = nothing_accepted _ _ (λ i. ground (arith, i))
Runs-IsPrefixOf (wait_failed e w n) = nothing_accepted _ _ (λ i. ground (arith, i))
Runs-IsPrefixOf (wait_panicked e w) = nothing_accepted _ _ (λ i. ground (arith, i))
Runs-IsPrefixOf (failed e n) = nothing_accepted _ _ (λ i. ground (arith, i))
Runs-IsPrefixOf (panicked e) = nothing_accepted _ _ (λ i. ground (arith, i))

Starts-IsPrefixOf :
    {reserved : Bool} {first : Outcome ErrorKind (List ℕ)} {rounds : List Round}
    {ds out : List Bytes} {end : Ending}
    → Starts reserved first rounds ds out end
    → IsPrefixOf ds out end
Starts-IsPrefixOf (first_failed e) = nothing_accepted _ _ (λ i. ground (arith, i))
Starts-IsPrefixOf (first_panicked e) = nothing_accepted _ _ (λ i. ground (arith, i))
Starts-IsPrefixOf (first_too_many e l) = nothing_accepted _ _ (λ i. ground (arith, i))
Starts-IsPrefixOf (first_short e w l) = some_accepted _ _ _ (λ i. absurd (ground (arith, i)))
Starts-IsPrefixOf (first_nothing e r) = nothing_accepted _ _ (λ i. ground (arith, i))
Starts-IsPrefixOf (first_all e w r p a) = some_accepted _ _ _ (λ _. omega (arith, a))
Starts-IsPrefixOf (first_unreserved e w r p l m) =
    some_accepted _ _ _ (λ i. absurd (ground (arith, i)))
Starts-IsPrefixOf (first_part e w r p l m run) = more_accepted _ _ _ _ (Runs-IsPrefixOf run)

pub Delivers-IsPrefixOf :
    {reserved : Bool} {first : Outcome ErrorKind (List ℕ)} {rounds : List Round}
    {ds out : List Bytes} {end : Ending}
    → Delivers reserved first rounds ds out end
    → IsPrefixOf ds out end
Delivers-IsPrefixOf (over_capacity l) = nothing_accepted _ _ (λ i. ground (arith, i))
Delivers-IsPrefixOf (fits l s) = Starts-IsPrefixOf s
