-- ===== src/Transport/Relay/Vectored.antt =====
-- The writes of a batch of chunks.
use zuicity.Prelude.{
  ℕ, zero, suc, ◌-◌, ◌≤◌, ◌<◌, ◌≡◌, refl, sym, ap, ◌∙◌, subst, List, [], ◌∷◌, ◌++◌, append_assoc,
  append-nil, arith, length, length-drop, take, drop, take-append-drop, take_all, Bool, true, false,
  ltb, if◌then◌else◌, Outcome, ok, err, panic,
}
use zuicity.Prelude.Bytes.{Bytes, concat}
use zuicity.Transport.Relay.{
  IoError, VectoredAnswer, accepted, refused, Relayed, advance_chunks, front_bytes, total_len,
  write_chunks, write_all_vectored_with_stall_timeout,
}

-- No chunk is empty, as `read_chunks` gives them.
abbrev pub AreNonempty : List Bytes → Type 0
AreNonempty [] = Unit
AreNonempty (c ∷ chunks) = (1 ≤ length c) × AreNonempty chunks

-- `n` bytes left the front of `chunks`, which leaves `rest`.
pub record Advanced (n : ℕ) (chunks rest : List Bytes) : Type 0 where
  pub whole : front_bytes n chunks ++ concat rest ≡ concat chunks
  pub left : total_len rest ≡ total_len chunks - n
  pub nonempty : AreNonempty chunks → AreNonempty rest

advance_zero : (chunks : List Bytes) → front_bytes zero chunks ≡ []
advance_zero [] = refl
advance_zero (c ∷ chunks) = ground (arith, advance_zero chunks)

front_none : (n : ℕ) (chunks : List Bytes) → n ≡ 0 → front_bytes n chunks ≡ []
front_none n chunks e = ap (λ k. front_bytes k chunks) e ∙ advance_zero chunks

inside :
    (n : ℕ) (c : Bytes) (chunks : List Bytes)
    → n < length c
    → Advanced n (c ∷ chunks) (drop n c ∷ chunks)
inside n c chunks k = record {
  whole =
      ap (λ (b : Bytes). (take n c ++ b) ++ (drop n c ++ concat chunks))
        (front_none (n - length c) chunks (omega arith))
      ∙ ap (λ (b : Bytes). b ++ (drop n c ++ concat chunks)) (append-nil (take n c))
      ∙ sym (append_assoc (take n c) (drop n c) (concat chunks))
      ∙ ap (λ (b : Bytes). b ++ concat chunks) (take-append-drop n c);
  left = omega (arith, length-drop n c);
  nonempty = λ v. (omega (arith, length-drop n c), v.1);
}

past :
    (n : ℕ) (c : Bytes) (chunks rest : List Bytes)
    → length c ≤ n
    → Advanced (n - length c) chunks rest
    → Advanced n (c ∷ chunks) rest
past n c chunks rest k a = record {
  whole =
      ap (λ (b : Bytes). (b ++ front_bytes (n - length c) chunks) ++ concat rest) (take_all n c k)
      ∙ append_assoc c (front_bytes (n - length c) chunks) (concat rest)
      ∙ ap (λ (b : Bytes). c ++ b) a.whole;
  left = omega (arith, a.left);
  nonempty = λ v. a.nonempty v.1;
}

-- The chunks after `n` bytes have left.
abbrev Leaves : ℕ → List Bytes → Outcome IoError (List Bytes) → Type 0
Leaves n chunks o = (rest : List Bytes) × (o ≡ ok rest) × Advanced n chunks rest

chosen-Leaves :
    (n : ℕ) (c : Bytes) (chunks : List Bytes) (o : Outcome IoError (List Bytes)) (b : Bool)
    → ltb n (length c) ≡ b
    → (length c ≤ n → Leaves (n - length c) chunks o)
    → Leaves n (c ∷ chunks) (if b then ok (drop n c ∷ chunks) else o)
chosen-Leaves n c chunks o true e f =
    (drop n c ∷ chunks, refl, inside n c chunks (ground (arith, e)))
chosen-Leaves n c chunks o false e f =
    let k : length c ≤ n = ground (arith, e) in
    let (rest, r, a) = f k in (rest, r, past n c chunks rest k a)

advance_chunks-Leaves :
    (n : ℕ) (chunks : List Bytes) → n ≤ total_len chunks → Leaves n chunks (advance_chunks n chunks)
unfolding advance_chunks
advance_chunks-Leaves zero chunks k = (
  chunks,
  refl,
  record {
    whole = ap (λ (b : Bytes). b ++ concat chunks) (advance_zero chunks);
    left = omega arith;
    nonempty = λ v. v;
  },
)
advance_chunks-Leaves (suc n) [] k = absurd (omega arith)
advance_chunks-Leaves (suc n) (c ∷ chunks) k =
    chosen-Leaves (suc n) c chunks (advance_chunks (suc n - length c) chunks)
      (ltb (suc n) (length c)) refl
      (λ e. advance_chunks-Leaves (suc n - length c) chunks (omega arith))

-- What the system promises of `write_vectored`: it takes no more than it is given.
abbrev pub AreInBounds : ℕ → List VectoredAnswer → Type 0
AreInBounds total [] = Unit
AreInBounds total (refused e ∷ answers) = AreInBounds total answers
AreInBounds total (accepted n ∷ answers) = (n ≤ total) × AreInBounds (total - n) answers

-- A batch that is written stands whole behind `output`; of one that is not, a front part does.
abbrev pub IsWritten : Bytes → List Bytes → Relayed (Unit {0}) → Type 0
IsWritten output chunks (ok _, written) = written ≡ output ++ concat chunks
IsWritten output chunks (err e, written) =
    (rest : Bytes) × (written ++ rest ≡ output ++ concat chunks)
IsWritten output chunks (panic, written) = ⊥

turned-IsWritten :
    (n : ℕ) (chunks rest : List Bytes) (output : Bytes) (r : Relayed (Unit {0}))
    → Advanced n chunks rest
    → IsWritten (output ++ front_bytes n chunks) rest r
    → IsWritten output chunks r
turned-IsWritten n chunks rest output (ok _, w) a p =
    p
    ∙ append_assoc output (front_bytes n chunks) (concat rest)
    ∙ ap (λ (b : Bytes). output ++ b) a.whole
turned-IsWritten n chunks rest output (err e, w) a (tail, p) = (
  tail,
  p
      ∙ append_assoc output (front_bytes n chunks) (concat rest)
      ∙ ap (λ (b : Bytes). output ++ b) a.whole,
)
turned-IsWritten n chunks rest output (panic, w) a p = p

pub write_chunks-IsWritten :
    (answers : List VectoredAnswer) (chunks : List Bytes) (output : Bytes)
    → AreInBounds (total_len chunks) answers
    → IsWritten output chunks (write_chunks answers chunks output)
unfolding write_chunks
write_chunks-IsWritten [] [] output v = sym (append-nil output)
write_chunks-IsWritten (_ ∷ _) [] output v = sym (append-nil output)
write_chunks-IsWritten [] (c ∷ chunks) output v = (concat (c ∷ chunks), refl)
write_chunks-IsWritten (refused e ∷ answers) (c ∷ chunks) output v = (concat (c ∷ chunks), refl)
write_chunks-IsWritten (accepted zero ∷ answers) (c ∷ chunks) output v = (concat (c ∷ chunks), refl)
write_chunks-IsWritten (accepted (suc n) ∷ answers) (c ∷ chunks) output (k, v) =
    let (rest, r, a) = advance_chunks-Leaves (suc n) (c ∷ chunks) k in
    rw r (
      turned-IsWritten (suc n) (c ∷ chunks) rest output _ a (
        write_chunks-IsWritten answers rest (output ++ front_bytes (suc n) (c ∷ chunks))
          (subst (λ t. AreInBounds t answers) (sym a.left) v)))

-- While bytes are left the writer takes at least one, and no more than there are.
abbrev pub Serves : ℕ → List VectoredAnswer → Type 0
Serves zero answers = Unit
Serves (suc t) [] = ⊥
Serves (suc t) (refused e ∷ answers) = ⊥
Serves (suc t) (accepted n ∷ answers) = (1 ≤ n) × (n ≤ suc t) × Serves (suc t - n) answers

nothing_left : (chunks : List Bytes) → AreNonempty chunks → total_len chunks ≡ 0 → chunks ≡ []
nothing_left [] v e = refl
nothing_left (c ∷ chunks) v e = absurd (omega (arith, v.0, e))

write_chunks-Serves :
    (answers : List VectoredAnswer) (chunks : List Bytes) (output : Bytes) (t : ℕ)
    → total_len chunks ≡ t
    → AreNonempty chunks
    → Serves t answers
    → write_chunks answers chunks output ≡ (ok tt, output ++ concat chunks)
unfolding write_chunks
write_chunks-Serves answers [] output t q v s =
    ap (λ (b : Bytes). let r : Relayed (Unit {0}) = (ok tt, b) in r) (sym (append-nil output))
write_chunks-Serves answers (c ∷ chunks) output zero q v s = absurd (omega (arith, v.0, q))
write_chunks-Serves [] (c ∷ chunks) output (suc t) q v s = absurd s
write_chunks-Serves (refused e ∷ answers) (c ∷ chunks) output (suc t) q v s = absurd s
write_chunks-Serves (accepted zero ∷ answers) (c ∷ chunks) output (suc t) q v s =
    absurd (omega (arith, s.0))
write_chunks-Serves (accepted (suc n) ∷ answers) (c ∷ chunks) output (suc t) q v (l, k, s) =
    let (rest, r, a) = advance_chunks-Leaves (suc n) (c ∷ chunks) (omega (arith, k, q)) in
    rw r (
      write_chunks-Serves answers rest (output ++ front_bytes (suc n) (c ∷ chunks)) (suc t - suc n)
        (omega (arith, a.left, q)) (a.nonempty v) s
      ∙ ap (λ (b : Bytes). let r : Relayed (Unit {0}) = (ok tt, b) in r)
          (append_assoc output (front_bytes (suc n) (c ∷ chunks)) (concat rest)
            ∙ ap (λ (b : Bytes). output ++ b) a.whole))

-- A batch of at most 64 chunks, none of them empty, is written whole and in order by a writer that
-- keeps taking bytes.
pub write_all_vectored-completes :
    (answers : List VectoredAnswer) (chunks : List Bytes) (output : Bytes)
    → length chunks ≤ 64
    → AreNonempty chunks
    → Serves (total_len chunks) answers
    → write_all_vectored_with_stall_timeout answers chunks output ≡ (ok tt, output ++ concat chunks)
unfolding write_all_vectored_with_stall_timeout
write_all_vectored-completes answers chunks output k v s =
    ground (arith, write_chunks-Serves answers chunks output (total_len chunks) refl v s)
