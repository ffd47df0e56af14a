-- ===== src/Transport/UdpBatch/Chunks.antt =====
-- The datagrams of a grouped transmit, and those that are left behind an accepted prefix.
use zuicity.Prelude.{
  ℕ, zero, suc, ◌+◌, ◌≤◌, ◌<◌, ◌≡◌, refl, sym, ap, ◌∙◌, List, [], ◌∷◌, ◌++◌, Option, none, some,
  arith, length, take, drop, map, take-append-drop, length-take, length-drop, drop-min, drop-drop,
  drop_all, take_all,
}
use zuicity.Prelude.Bytes.{Bytes, concat}
use zuicity.Transport.UdpBatch.{
  PlainTransmit, chunks, at_least_one, normalized_segment_size, datagrams, datagram_lengths, sum,
  unwrap_or,
}

pub concat-chunks :
    (fuel size : ℕ) (bytes : Bytes)
    → length bytes ≤ fuel
    → 0 < size
    → concat (chunks fuel size bytes) ≡ bytes
unfolding chunks
concat-chunks zero size [] h k = refl
concat-chunks zero size (b ∷ bytes) h k = absurd (omega arith)
concat-chunks (suc fuel) size [] h k = refl
concat-chunks (suc fuel) size (b ∷ bytes) h k =
    ap (◌++◌ (take size (b ∷ bytes))) (
      concat-chunks fuel size (drop size (b ∷ bytes)) (omega (arith, length-drop size (b ∷ bytes)))
        k)
    ∙ take-append-drop size (b ∷ bytes)

-- Any fuel that is enough gives the same chunks.
pub chunks-fuel :
    (f g size : ℕ) (bytes : Bytes)
    → length bytes ≤ f
    → length bytes ≤ g
    → 0 < size
    → chunks f size bytes ≡ chunks g size bytes
unfolding chunks
chunks-fuel zero zero size bytes h k p = refl
chunks-fuel zero (suc g) size [] h k p = refl
chunks-fuel zero (suc g) size (b ∷ bytes) h k p = absurd (omega arith)
chunks-fuel (suc f) zero size [] h k p = refl
chunks-fuel (suc f) zero size (b ∷ bytes) h k p = absurd (omega arith)
chunks-fuel (suc f) (suc g) size [] h k p = refl
chunks-fuel (suc f) (suc g) size (b ∷ bytes) h k p = ap (◌∷◌ (take size (b ∷ bytes))) (
    chunks-fuel f g size (drop size (b ∷ bytes)) (omega (arith, length-drop size (b ∷ bytes)))
      (omega (arith, length-drop size (b ∷ bytes))) p)

-- The bytes of the first `k` chunks.
abbrev pub prefix_len : ℕ → List Bytes → ℕ
prefix_len k cs = sum (take k (map (length {A = ℕ}) cs))

drop-take-drop :
    (size n : ℕ) (bytes : Bytes)
    → drop (length (take size bytes) + n) bytes ≡ drop n (drop size bytes)
drop-take-drop size n bytes =
    sym (drop-drop (length (take size bytes)) n bytes)
    ∙ ap (drop n) (ap (λ k. drop k bytes) (length-take size bytes) ∙ drop-min size bytes)

-- Behind the bytes of the first `k` chunks, the other chunks are as they were.
pub chunks-drop :
    (k fuel size : ℕ) (bytes : Bytes)
    → length bytes ≤ fuel
    → 0 < size
    → chunks fuel size (drop (prefix_len k (chunks fuel size bytes)) bytes)
      ≡ drop k (chunks fuel size bytes)
unfolding chunks
chunks-drop zero fuel size bytes h p = refl
chunks-drop (suc k) zero size bytes h p = refl
chunks-drop (suc k) (suc fuel) size [] h p = refl
chunks-drop (suc k) (suc fuel) size (b ∷ bytes) h p =
    let rest = drop size (b ∷ bytes) in
    let left = drop (prefix_len k (chunks fuel size rest)) rest in
    ap (chunks (suc fuel) size)
      (drop-take-drop size (prefix_len k (chunks fuel size rest)) (b ∷ bytes))
    ∙ chunks-fuel (suc fuel) fuel size left
        (omega (
          arith,
          length-drop (prefix_len k (chunks fuel size rest)) rest,
          length-drop size (b ∷ bytes),
        ))
        (omega (
          arith,
          length-drop (prefix_len k (chunks fuel size rest)) rest,
          length-drop size (b ∷ bytes),
        ))
        p
    ∙ chunks-drop k fuel size rest (omega (arith, length-drop size (b ∷ bytes))) p

drop-nil : (k : ℕ) → drop {A = Bytes} k [] ≡ []
drop-nil zero = refl
drop-nil (suc k) = refl

size-positive : (n : ℕ) → 0 < at_least_one n
size-positive zero = omega arith
size-positive (suc n) = omega arith

abbrev pub with_contents : PlainTransmit → Bytes → PlainTransmit
with_contents t c = record t { contents = c }

-- Chunks of a fixed size, each bytes with its own length as fuel.
datagrams-drop_sized :
    (k size : ℕ) (bytes : Bytes)
    → 0 < size
    → chunks
        (length (drop (prefix_len k (chunks (length bytes) size bytes)) bytes))
        size
        (drop (prefix_len k (chunks (length bytes) size bytes)) bytes)
      ≡ drop k (chunks (length bytes) size bytes)
datagrams-drop_sized k size bytes p =
    let n = prefix_len k (chunks (length bytes) size bytes) in
    chunks-fuel (length (drop n bytes)) (length bytes) size (drop n bytes) (omega arith)
      (omega (arith, length-drop n bytes)) p
    ∙ chunks-drop k (length bytes) size bytes (omega arith) p

chunks-nil : (fuel size : ℕ) → chunks fuel size [] ≡ []
unfolding chunks
chunks-nil zero size = refl
chunks-nil (suc fuel) size = refl

one_chunk :
    (n : ℕ) (b : ℕ) (bytes : Bytes)
    → length bytes ≡ n
    → chunks (suc n) (suc n) (b ∷ bytes) ≡ (b ∷ bytes) ∷ []
unfolding chunks
one_chunk n b bytes e =
    ap (λ c. (b ∷ c) ∷ chunks n (suc n) (drop n bytes)) (take_all n bytes (omega arith))
    ∙ ap (λ c. (b ∷ bytes) ∷ chunks n (suc n) c) (drop_all n bytes (omega arith))
    ∙ ap (λ c. (b ∷ bytes) ∷ c) (chunks-nil n (suc n))

-- One chunk of all the bytes: what is left behind it is nothing.
datagrams-drop_whole :
    (k : ℕ) (b : ℕ) (bytes : Bytes)
    → let all = chunks (suc (length bytes)) (suc (length bytes)) (b ∷ bytes) in
      let left = drop (prefix_len k all) (b ∷ bytes) in
      chunks (length left) (at_least_one (length left)) left ≡ drop k all
datagrams-drop_whole zero b bytes = refl
datagrams-drop_whole (suc k) b bytes =
    let all = chunks (suc (length bytes)) (suc (length bytes)) (b ∷ bytes) in
    let one = one_chunk (length bytes) b bytes refl in
    let nothing =
      ap (λ cs. drop (prefix_len (suc k) cs) (b ∷ bytes)) one
      ∙ drop_all (length (b ∷ bytes) + prefix_len k []) (b ∷ bytes) (omega arith) in
    ap (λ left. chunks (length left) (at_least_one (length left)) left) nothing
    ∙ chunks-nil 0 1
    ∙ sym (drop-nil k)
    ∙ sym (ap (drop (suc k)) one)

abbrev sized : Option ℕ → Bytes → List Bytes
sized n bytes = chunks (length bytes) (at_least_one (unwrap_or n (length bytes))) bytes

sized-drop :
    (n : Option ℕ) (bytes : Bytes) (k : ℕ)
    → sized n (drop (prefix_len k (sized n bytes)) bytes) ≡ drop k (sized n bytes)
unfolding chunks
sized-drop (some n) bytes k = datagrams-drop_sized k (at_least_one n) bytes (size-positive n)
sized-drop none [] k =
    ap (sized none) (drop_all (prefix_len k []) [] (omega arith))
    ∙ chunks-nil 0 1
    ∙ sym (drop-nil k)
    ∙ ap (drop k) (sym (chunks-nil 0 1))
sized-drop none (b ∷ bytes) k = datagrams-drop_whole k b bytes

-- A transmit without the bytes of its first `k` datagrams is the other datagrams.
pub datagrams-drop :
    (t : PlainTransmit) (k : ℕ)
    → datagrams (with_contents t (drop (sum (take k (datagram_lengths t))) t.contents))
      ≡ drop k (datagrams t)
unfolding datagrams normalized_segment_size
datagrams-drop t k = sized-drop t.segment_size t.contents k

pub datagrams-nil : (t : PlainTransmit) → t.contents ≡ [] → datagrams t ≡ []
unfolding datagrams
datagrams-nil t e =
    ap (λ c. chunks (length c) (normalized_segment_size t) c) e
    ∙ chunks-nil 0 (normalized_segment_size t)

pub concat-datagrams : (t : PlainTransmit) → concat (datagrams t) ≡ t.contents
unfolding datagrams normalized_segment_size
concat-datagrams t =
    concat-chunks (length t.contents) (normalized_segment_size t) t.contents (omega arith)
      (size-positive (unwrap_or t.segment_size (length t.contents)))
