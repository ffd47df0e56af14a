-- ===== src/Transport/Tuic/Reassembly/Delivery.antt =====
-- The fragments of one packet in the reassembler, one call at a time.
use zuicity.Prelude.{
  ℕ, zero, suc, ◌+◌, ◌%◌, ◌≤◌, ◌<◌, ◌≡◌, ◌≢◌, refl, sym, ◌∙◌, List, [], ◌∷◌, ◌⊎◌, inl, inr, none,
  some, append-nil, Bool-cases, arith, ◌==◌, if◌then◌else◌, length, get_elem?, get_or, set, ok,
}
use zuicity.Prelude.Bytes.{Bytes, concat}
use zuicity.Transport.Defs.{SocketAddr}
use zuicity.Transport.Tuic.Fragment.{TuicUdpFragment}
use zuicity.Transport.Tuic.Reassembly.{
  TuicUdpReassemblyBuffer, Buffers, update, entry_or_insert, accept,
}
use zuicity.Transport.Tuic.Reassembly.Slots.{
  Slots, count_some, count_some-le, count_some-set, length-set, get_elem?-set_ne, Agrees,
  concat_chunks-Agrees, length-Agrees, Agrees-set,
}

abbrev pub All {ℓ} : {A : Type ℓ} → (A → Type 0) → List A → Type 0
All P [] = Unit
All P (x ∷ xs) = P x × All P xs

abbrev pub Distinct : List ℕ → Type 0
Distinct [] = Unit
Distinct (x ∷ xs) = All (λ y. x ≢ y) xs × Distinct xs

-- A packet that was cut into chunks.
pub record Packet : Type 0 where
  pub association_id : ℕ
  pub packet_id : ℕ
  pub target : SocketAddr
  pub chunks : List Bytes

-- Its fragment number `i`: the first one carries the target.
abbrev pub fragment : Packet → ℕ → TuicUdpFragment
fragment k i = record {
  association_id = k.association_id;
  packet_id = k.packet_id;
  fragment_total = length k.chunks;
  fragment_id = i;
  target = if i == 0 then some k.target else none;
  payload = get_or k.chunks i [];
}

-- The buffer holds a part of the packet, and not all of it.
pub record IsPart (k : Packet) (b : TuicUdpReassemblyBuffer) : Type 0 where
  pub agrees : Agrees k.chunks b.fragments
  pub counted : b.received ≡ count_some b.fragments
  pub addressed : (get_elem? b.fragments 0 ≡ some none) ⊎ (b.target ≡ some k.target)

-- The buffer with one more fragment.
abbrev pub fill : Packet → ℕ → TuicUdpReassemblyBuffer → TuicUdpReassemblyBuffer
fill k i b = record b {
  fragments = set b.fragments i (some (get_or k.chunks i []));
  received = (b.received + 1) % 256;
  target = if i == 0 then some k.target else b.target;
}

get_elem?-get_or :
    (chunks : List Bytes) (i : ℕ)
    → i < length chunks
    → get_elem? chunks i ≡ some (get_or chunks i [])
get_elem?-get_or [] i h = absurd (omega arith)
get_elem?-get_or (c ∷ chunks) zero h = refl
get_elem?-get_or (c ∷ chunks) (suc i) h = get_elem?-get_or chunks i (omega arith)

-- In full slots the first one is filled.
full_first : (slots : Slots) → count_some slots ≡ length slots → get_elem? slots 0 ≢ some none
full_first [] h = ground arith
full_first (none ∷ slots) h = absurd (omega (arith, count_some-le slots))
full_first (some _ ∷ slots) h = ground arith

module _ (k : Packet) (i : ℕ) (b : TuicUdpReassemblyBuffer) (v : IsPart k b)
    (u8 : length k.chunks ≤ 255) (inside : i < length k.chunks)
    (empty : get_elem? b.fragments i ≡ some none) where
  fill-counted : (fill k i b).received ≡ suc (count_some b.fragments)
  fill-counted = omega (
    arith,
    v.counted,
    count_some-le (set b.fragments i (some (get_or k.chunks i []))),
    count_some-set b.fragments i (get_or k.chunks i []) empty,
    length-set b.fragments i (some (get_or k.chunks i [])),
    length-Agrees k.chunks b.fragments v.agrees,
  )

  pub fill-IsPart : IsPart k (fill k i b)
  fill-IsPart = record {
    agrees = Agrees-set k.chunks b.fragments i _ v.agrees (get_elem?-get_or k.chunks i inside);
    counted = fill-counted ∙ sym (count_some-set b.fragments i (get_or k.chunks i []) empty);
    addressed = elim (Bool-cases (i == 0)) [
      | inl first ↦ inr (rw first)
      | inr later ↦
          ground
            (arith, v.addressed, get_elem?-set_ne b.fragments i 0 (some (get_or k.chunks i [])))
    ];
  }

  pub accept-more :
      (now : ℕ) (buffers : Buffers)
      → entry_or_insert (buffers k.association_id k.packet_id) (length k.chunks) now ≡ b
      → suc (count_some b.fragments) < length k.chunks
      → accept now buffers (fragment k i)
        ≡ (ok none, update buffers k.association_id k.packet_id (some (fill k i b)))
  unfolding accept
  accept-more now buffers e more = ground (
    arith,
    fill-counted,
    length-set b.fragments i (some (get_or k.chunks i [])),
    length-Agrees k.chunks b.fragments v.agrees,
  )

  pub accept-last :
      (now : ℕ) (buffers : Buffers)
      → entry_or_insert (buffers k.association_id k.packet_id) (length k.chunks) now ≡ b
      → 1 < length k.chunks
      → suc (count_some b.fragments) ≡ length k.chunks
      → accept now buffers (fragment k i)
        ≡ (ok (some (concat k.chunks, k.target)), update buffers k.association_id k.packet_id none)
  unfolding accept
  accept-last now buffers e two last =
      let size = length-set b.fragments i (some (get_or k.chunks i [])) in
      let size' = length-Agrees k.chunks b.fragments v.agrees in
      let full : count_some (fill k i b).fragments ≡ length (fill k i b).fragments =
        omega
          (arith, size, size', last, count_some-set b.fragments i (get_or k.chunks i []) empty) in
      let all = concat_chunks-Agrees k.chunks (fill k i b).fragments fill-IsPart.agrees full in
      let known : (fill k i b).target ≡ some k.target = elim fill-IsPart.addressed [
        | inl unfilled ↦ absurd (full_first (fill k i b).fragments full unfilled)
        | inr t ↦ t
      ] in
      ground (arith, fill-counted, size, size', all, known)

concat_one : (chunks : List Bytes) → length chunks ≡ 1 → get_or chunks 0 [] ≡ concat chunks
concat_one [] h = absurd (omega arith)
concat_one (c ∷ []) h = sym (append-nil c)
concat_one (c ∷ d ∷ chunks) h = absurd (omega arith)

-- A packet of one fragment is delivered at once.
pub accept-one :
    (k : Packet) (now : ℕ) (buffers : Buffers)
    → length k.chunks ≡ 1
    → accept now buffers (fragment k 0) ≡ (ok (some (concat k.chunks, k.target)), buffers)
unfolding accept
accept-one k now buffers h = ground (arith, concat_one k.chunks h)
