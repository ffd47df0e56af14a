-- ===== src/Transport/Tuic/Reassembly/Interleaving.antt =====
-- The fragments of one packet among those of other packets, in whatever order.
use zuicity.Prelude.{
  ℕ, zero, suc, ◌+◌, ◌≤◌, ◌<◌, ◌≡◌, ◌≢◌, refl, sym, ap, ◌∙◌, List, [], ◌∷◌, inl, Bool, false, ◌&&◌,
  Option, none, some, arith, ◌==◌, length, get_elem?, get_or, set, replicate, Outcome, ok,
}
use zuicity.Prelude.Bytes.{Bytes, concat}
use zuicity.Transport.Defs.{SocketAddr, TransportError}
use zuicity.Transport.Tuic.Fragment.{TuicUdpFragment}
use zuicity.Transport.Tuic.Reassembly.{
  TuicUdpReassemblyBuffer, Buffers, update, entry_or_insert, accept,
}
use zuicity.Transport.Tuic.Reassembly.Slots.{
  Slots, count_some, count_some-replicate, count_some-set, get_elem?-set_ne, Agrees-replicate,
}
use zuicity.Transport.Tuic.Reassembly.Delivery.{
  All, Distinct, Packet, fragment, IsPart, fill, fill-IsPart, accept-more, accept-last,
}

-- A fragment of the packet by its number, or any fragment of another packet, each with its time.
pub data Arrival : Type 0 where
  own : ℕ → ℕ → Arrival
  other : ℕ → TuicUdpFragment → Arrival

abbrev pub own_ids : List Arrival → List ℕ
own_ids [] = []
own_ids (own now i ∷ es) = i ∷ own_ids es
own_ids (other now f ∷ es) = own_ids es

abbrev pub same_key : Packet → TuicUdpFragment → Bool
same_key k f = k.association_id == f.association_id && k.packet_id == f.packet_id

abbrev pub AreOthers : Packet → List Arrival → Type 0
AreOthers k [] = Unit
AreOthers k (own now i ∷ es) = AreOthers k es
AreOthers k (other now f ∷ es) = (same_key k f ≡ false) × AreOthers k es

abbrev pub Outcomes : Type 0
Outcomes = List (Outcome TransportError (Option (Bytes × SocketAddr)))

abbrev cons_outcome :
    Outcome TransportError (Option (Bytes × SocketAddr)) → Outcomes × Buffers → Outcomes × Buffers
cons_outcome o (os, buffers) = (o ∷ os, buffers)

-- The outcomes of the packet's own fragments, and the buffers at the end.
pub feed : Packet → Buffers → List Arrival → Outcomes × Buffers
feed k buffers [] = ([], buffers)
feed k buffers (own now i ∷ es) =
    let (o, buffers') = accept now buffers (fragment k i) in cons_outcome o (feed k buffers' es)
feed k buffers (other now f ∷ es) = feed k (accept now buffers f).1 es

-- Nothing is delivered until the last fragment, and then the whole packet.
abbrev pub delivered : Bytes → SocketAddr → List ℕ → Outcomes
delivered payload target [] = []
delivered payload target (i ∷ []) = ok (some (payload, target)) ∷ []
delivered payload target (i ∷ j ∷ is) = ok none ∷ delivered payload target (j ∷ is)

-- A fragment of another packet leaves the buffer alone.
accept-other :
    (k : Packet) (now : ℕ) (buffers : Buffers) (f : TuicUdpFragment)
    → same_key k f ≡ false
    → (accept now buffers f).1 k.association_id k.packet_id ≡ buffers k.association_id k.packet_id
unfolding accept
accept-other k now buffers f h = ground arith

abbrev Ready : Packet → Option TuicUdpReassemblyBuffer → List ℕ → Type 0
Ready k none [] = Unit
Ready k none (i ∷ is) = suc (length is) ≡ length k.chunks
Ready k (some b) ids =
    IsPart k b
    × All (λ i. get_elem? b.fragments i ≡ some none) ids
    × (count_some b.fragments + length ids ≡ length k.chunks)
    × (count_some b.fragments < length k.chunks)

All-empty :
    (n : ℕ) (ids : List ℕ)
    → All (λ i. i < n) ids
    → All (λ i. get_elem? {A = Option Bytes} (replicate n none) i ≡ some none) ids
All-empty n [] h = tt
All-empty n (i ∷ ids) h = (empty_at n i h.0, All-empty n ids h.1)
  where
    empty_at : (n i : ℕ) → i < n → get_elem? {A = Option Bytes} (replicate n none) i ≡ some none
    empty_at zero i h = absurd (omega arith)
    empty_at (suc n) zero h = refl
    empty_at (suc n) (suc i) h = empty_at n i (omega arith)

All-empty-set :
    (slots : Slots) (i : ℕ) (chunk : Bytes) (ids : List ℕ)
    → All (λ j. i ≢ j) ids
    → All (λ j. get_elem? slots j ≡ some none) ids
    → All (λ j. get_elem? (set slots i (some chunk)) j ≡ some none) ids
All-empty-set slots i chunk [] d h = tt
All-empty-set slots i chunk (j ∷ ids) d h =
    (get_elem?-set_ne slots i j (some chunk) d.0 ∙ h.0, All-empty-set slots i chunk ids d.1 h.1)

-- The buffer that the next own fragment finds, or makes.
Ready-entry :
    (k : Packet) (o : Option TuicUdpReassemblyBuffer) (i : ℕ) (is : List ℕ) (now : ℕ)
    → All (λ j. j < length k.chunks) (i ∷ is)
    → Ready k o (i ∷ is)
    → Ready k (some (entry_or_insert o (length k.chunks) now)) (i ∷ is)
unfolding entry_or_insert
Ready-entry k (some b) i is now w r = r
Ready-entry k none i is now w r = (
  record {
    agrees = Agrees-replicate k.chunks;
    counted = sym (count_some-replicate (length k.chunks));
    addressed = inl (All-empty (length k.chunks) (0 ∷ []) (omega (arith, w.0), tt)).0;
  },
  All-empty (length k.chunks) (i ∷ is) w,
  omega (arith, count_some-replicate (length k.chunks)),
  omega (arith, count_some-replicate (length k.chunks)),
)

-- Where the packet's buffer stands, what the rest of the arrivals gives.
abbrev Delivers : Packet → Buffers → List Arrival → Type 0
Delivers k buffers es =
    ((feed k buffers es).0 ≡ delivered (concat k.chunks) k.target (own_ids es))
    × ((feed k buffers es).1 k.association_id k.packet_id ≡ none)

Ready-nil : (k : Packet) (o : Option TuicUdpReassemblyBuffer) → Ready k o [] → o ≡ none
Ready-nil k none r = refl
Ready-nil k (some b) r = absurd (omega (arith, r.2, r.3))

update_self :
    (buffers : Buffers) (a p : ℕ) (o : Option TuicUdpReassemblyBuffer)
    → update buffers a p o a p ≡ o
update_self buffers a p o = ground arith

-- An own fragment that is expected: its outcome, and the buffer for those that follow.
abbrev Steps : Packet → ℕ → ℕ → Buffers → List ℕ → Type 0
Steps k now i buffers is =
    (o : Outcome TransportError (Option (Bytes × SocketAddr))) × (after : Buffers) × (accept now
        buffers (fragment k i)
      ≡ (o, after))
    × (delivered (concat k.chunks) k.target (i ∷ is) ≡ o ∷ delivered (concat k.chunks) k.target is)
    × Ready k (after k.association_id k.packet_id) is

module _ (k : Packet) (u8 : length k.chunks ≤ 255) (two : 1 < length k.chunks) where
  own_step :
      (now i : ℕ) (buffers : Buffers) (is : List ℕ)
      → i < length k.chunks
      → Distinct (i ∷ is)
      → Ready k
          (some (entry_or_insert (buffers k.association_id k.packet_id) (length k.chunks) now))
          (i ∷ is)
      → Steps k now i buffers is
  own_step now i buffers [] inside distinct r = (
    ok (some (concat k.chunks, k.target)),
    update buffers k.association_id k.packet_id none,
    accept-last k i _ r.0 u8 inside r.1.0 now buffers refl two (omega (arith, r.2)),
    refl,
    rw (update_self buffers k.association_id k.packet_id none) tt,
  )
  own_step now i buffers (j ∷ is) inside distinct r =
      let b = entry_or_insert (buffers k.association_id k.packet_id) (length k.chunks) now in
      let counted = count_some-set b.fragments i (get_or k.chunks i []) r.1.0 in
      (
        ok none,
        update buffers k.association_id k.packet_id (some (fill k i b)),
        accept-more k i b r.0 u8 inside r.1.0 now buffers refl (omega (arith, r.2)),
        refl,
        rw (update_self buffers k.association_id k.packet_id (some (fill k i b))) (
          fill-IsPart k i b r.0 u8 inside r.1.0,
          All-empty-set b.fragments i (get_or k.chunks i []) (j ∷ is) distinct.0 r.1.1,
          omega (arith, r.2, counted),
          omega (arith, r.2, counted),
        ),
      )

  feed-delivered :
      (es : List Arrival) (buffers : Buffers)
      → AreOthers k es
      → All (λ i. i < length k.chunks) (own_ids es)
      → Distinct (own_ids es)
      → Ready k (buffers k.association_id k.packet_id) (own_ids es)
      → Delivers k buffers es
  unfolding feed
  feed-delivered [] buffers others inside distinct r = (refl, Ready-nil k _ r)
  feed-delivered (other now f ∷ es) buffers others inside distinct r =
      feed-delivered es (accept now buffers f).1 others.1 inside distinct
        (rw (accept-other k now buffers f others.0) r)
  feed-delivered (own now i ∷ es) buffers others inside distinct r =
      let (o, after, e, d, r') =
        own_step now i buffers (own_ids es) inside.0 distinct
          (Ready-entry k (buffers k.association_id k.packet_id) i (own_ids es) now inside r) in
      let rest = feed-delivered es after others inside.1 distinct.1 r' in
      rw e (ap (◌∷◌ o) rest.0 ∙ sym d, rest.1)

-- A packet of 2 to 255 chunks is delivered whole and once: if each of its fragments arrives once,
-- in any order and among any fragments of other packets, every own fragment but the last gives
-- nothing, the last gives the concatenated chunks with the target, and the buffer is gone.
pub feed_delivers :
    (k : Packet) (es : List Arrival) (buffers : Buffers)
    → length k.chunks ≤ 255
    → 1 < length k.chunks
    → buffers k.association_id k.packet_id ≡ none
    → AreOthers k es
    → All (λ i. i < length k.chunks) (own_ids es)
    → Distinct (own_ids es)
    → length (own_ids es) ≡ length k.chunks
    → ((feed k buffers es).0 ≡ delivered (concat k.chunks) k.target (own_ids es))
      × ((feed k buffers es).1 k.association_id k.packet_id ≡ none)
feed_delivers k es buffers u8 two fresh others inside distinct once =
    feed-delivered k u8 two es buffers others inside distinct (rw fresh (start (own_ids es) once))
  where
    start : (ids : List ℕ) → length ids ≡ length k.chunks → Ready k none ids
    start [] h = tt
    start (i ∷ is) h = h
