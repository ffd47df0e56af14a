-- ===== src/Transport/Tuic/Reassembly/Invariant.antt =====
-- The well-formed buffers of the reassembler, over any sequence of its calls.
use zuicity.Prelude.{
  ℕ, zero, suc, ◌+◌, ◌%◌, ◌-◌, ltb, ◌≤◌, ◌<◌, ◌≡◌, ◌≢◌, refl, List, [], ◌∷◌, inl, inr, ◌&&◌, Option,
  none, some, Bool-cases, arith, ◌==◌, length, get_elem?, set, Outcome, ok, err, panic,
}
use zuicity.Prelude.Bytes.{Bytes}
use zuicity.Transport.Defs.{SocketAddr, TransportError}
use zuicity.Transport.Tuic.Fragment.{TuicUdpFragment}
use zuicity.Transport.Tuic.Reassembly.{
  TuicUdpReassemblyBuffer, Buffers, update, Accepted, entry_or_insert, finish_with, new_target,
  store, store_slot, accept_into, accept_single, accept, collect_garbage, keep_young, no_buffers,
  default_nat_timeout,
}
use zuicity.Transport.Tuic.Reassembly.Slots.{
  Slots, count_some, count_some-replicate, count_some-set, length-set, length-replicate,
  get_elem?-of_lt, get_elem?-set_ne, concat_chunks-full,
}

-- What `decode_tuic_udp_fragment` guarantees of a fragment.
pub record IsFragment (f : TuicUdpFragment) : Type 0 where
  pub within : f.fragment_id < f.fragment_total
  pub total_is_u8 : f.fragment_total ≤ 255

-- A buffer that is waiting: some slot is empty, the counter counts the filled ones, and the
-- target is known once the first slot is filled.
pub record IsWaiting (b : TuicUdpReassemblyBuffer) : Type 0 where
  pub bounded : length b.fragments ≤ 255
  pub counted : b.received ≡ count_some b.fragments
  pub incomplete : count_some b.fragments < length b.fragments
  pub addressed : (b.target ≡ none) → get_elem? b.fragments 0 ≡ some none

abbrev IsEntry : Option TuicUdpReassemblyBuffer → Type 0
IsEntry none = Unit
IsEntry (some b) = IsWaiting b

-- Every buffer is waiting.
abbrev pub IsReassembler : Buffers → Type 0
IsReassembler buffers = (a p : ℕ) → IsEntry (buffers a p)

entry_or_insert-IsWaiting :
    (o : Option TuicUdpReassemblyBuffer) (total now : ℕ)
    → IsEntry o
    → 0 < total
    → total ≤ 255
    → IsWaiting (entry_or_insert o total now)
unfolding entry_or_insert
entry_or_insert-IsWaiting (some b) total now v h k = v
entry_or_insert-IsWaiting none zero now v h k = absurd (omega arith)
entry_or_insert-IsWaiting none (suc n) now v h k = record {
  bounded = omega (arith, length-replicate (suc n) none);
  counted = omega (arith, count_some-replicate (suc n));
  incomplete = omega (arith, count_some-replicate (suc n), length-replicate (suc n) none);
  addressed = λ _. refl;
}

update-IsReassembler :
    (buffers : Buffers) (a p : ℕ) (o : Option TuicUdpReassemblyBuffer)
    → IsReassembler buffers
    → IsEntry o
    → IsReassembler (update buffers a p o)
update-IsReassembler buffers a p o v w a' p' = elim (Bool-cases (a' == a && p' == p)) [
  | inl hit ↦ rw hit w
  | inr miss ↦ rw miss (v a' p')
]

-- What a step of the reassembler keeps: it does not panic, and its buffers are waiting.
abbrev Keeps : Accepted → Type 0
Keeps (o, buffers) = (o ≢ panic) × IsReassembler buffers

-- Full slots have their first slot filled, so the target is known and nothing is missing.
finish_with-ne-panic :
    (target : Option SocketAddr) (slots : Slots)
    → count_some slots ≡ length slots
    → finish_with target slots ≢ panic
unfolding finish_with
finish_with-ne-panic none slots h = ground arith
finish_with-ne-panic (some t) slots h =
    let (payload, e) = concat_chunks-full slots h in ground arith

module _ (buffers : Buffers) (f : TuicUdpFragment) (b : TuicUdpReassemblyBuffer) where
  stored-IsWaiting :
      (target : Option SocketAddr) (n : ℕ)
      → IsWaiting b
      → get_elem? b.fragments f.fragment_id ≡ some none
      → new_target f b.target ≡ ok target
      → n ≡ suc (count_some b.fragments)
      → n ≢ length b.fragments
      → IsWaiting (record b {
        fragments = set b.fragments f.fragment_id (some f.payload);
        received = n;
        target = target;
      })
  unfolding new_target
  stored-IsWaiting target n v e t c ne = record {
    bounded = omega (arith, v.bounded, length-set b.fragments f.fragment_id (some f.payload));
    counted = omega (arith, count_some-set b.fragments f.fragment_id f.payload e);
    incomplete = omega (
      arith,
      v.incomplete,
      length-set b.fragments f.fragment_id (some f.payload),
      count_some-set b.fragments f.fragment_id f.payload e,
    );
    addressed = λ u. ground (arith, get_elem?-set_ne b.fragments f.fragment_id 0 (some f.payload));
  }

  store-Keeps :
      (o : Outcome TransportError (Option SocketAddr))
      → IsReassembler buffers
      → IsWaiting b
      → get_elem? b.fragments f.fragment_id ≡ some none
      → new_target f b.target ≡ o
      → o ≢ panic
      → Keeps (store buffers f b o)
  unfolding store
  store-Keeps (err e) r v e' t np = (λ x. cc, update-IsReassembler buffers _ _ (some b) r v)
  store-Keeps panic r v e t np = absurd (np refl)
  store-Keeps (ok target) r v e t np =
      let counted : (b.received + 1) % 256 ≡ suc (count_some b.fragments) =
        omega (arith, v.bounded, v.counted, v.incomplete) in
      let size = length-set b.fragments f.fragment_id (some f.payload) in
      let filled = count_some-set b.fragments f.fragment_id f.payload e in
      elim (Bool-cases
        ((b.received + 1) % 256 == length (set b.fragments f.fragment_id (some f.payload)))) [
          | inl full ↦ rw full (
            finish_with-ne-panic target _ (ground arith),
            update-IsReassembler buffers _ _ none r tt,
          )
          | inr short ↦ rw short (
            λ x. cc,
            update-IsReassembler buffers _ _ (some _) r
                (stored-IsWaiting target _ v e t counted (ground arith)),
          )
        ]

  new_target-ne-panic : new_target f b.target ≢ panic
  unfolding new_target
  new_target-ne-panic = ground arith

  accept_into-Keeps :
      IsReassembler buffers → IsWaiting b → IsFragment f → Keeps (accept_into buffers f b)
  unfolding accept_into store_slot
  accept_into-Keeps r v w = elim (Bool-cases (length b.fragments == f.fragment_total)) [
    | inr other ↦ rw other (λ x. cc, update-IsReassembler buffers _ _ none r tt)
    | inl same ↦ rw same (slot (get_elem? b.fragments f.fragment_id) (ground arith) refl)
  ]
    where
      slot :
          (o : Option (Option Bytes))
          → f.fragment_id < length b.fragments
          → get_elem? b.fragments f.fragment_id ≡ o
          → Keeps (store_slot buffers f b o)
      slot none k e = let (o, found) = get_elem?-of_lt b.fragments f.fragment_id k in absurd (cc)
      slot (some (some _)) k e = (λ x. cc, update-IsReassembler buffers _ _ (some b) r v)
      slot (some none) k e = store-Keeps _ r v e refl new_target-ne-panic

accept-Keeps :
    (now : ℕ) (buffers : Buffers) (f : TuicUdpFragment)
    → IsReassembler buffers
    → IsFragment f
    → Keeps (accept now buffers f)
unfolding accept
accept-Keeps now buffers f r w = elim (Bool-cases (f.fragment_total == 1)) [
  | inl one ↦ rw one (single f.target)
  | inr more ↦ rw more (
      accept_into-Keeps buffers f _ r
        (entry_or_insert-IsWaiting (buffers f.association_id f.packet_id) f.fragment_total now
          (r f.association_id f.packet_id) (omega (arith, w.within)) w.total_is_u8)
        w)
]
  where
    single : (o : Option SocketAddr) → Keeps (accept_single buffers f.payload o)
    single none = (λ x. cc, r)
    single (some t) = (λ x. cc, r)

-- The calls that change the reassembler.
pub data Event : Type 0 where
  accepts : ℕ → TuicUdpFragment → Event
  collects : ℕ → Event

abbrev pub apply : Buffers → Event → Buffers
apply buffers (accepts now f) = (accept now buffers f).1
apply buffers (collects now) = collect_garbage now buffers

abbrev pub AreFragments : List Event → Type 0
AreFragments [] = Unit
AreFragments (accepts now f ∷ es) = IsFragment f × AreFragments es
AreFragments (collects now ∷ es) = AreFragments es

pub run : Buffers → List Event → Buffers
run buffers [] = buffers
run buffers (e ∷ es) = run (apply buffers e) es

collect_garbage-IsReassembler :
    (now : ℕ) (buffers : Buffers)
    → IsReassembler buffers
    → IsReassembler (collect_garbage now buffers)
unfolding collect_garbage
collect_garbage-IsReassembler now buffers r a p = keeps (buffers a p) (r a p)
  where
    keeps : (o : Option TuicUdpReassemblyBuffer) → IsEntry o → IsEntry (keep_young now o)
    keeps none v = tt
    keeps (some b) v = elim (Bool-cases (ltb (now - b.created) default_nat_timeout)) [
      | inl young ↦ rw young v
      | inr old ↦ rw old tt
    ]

run-IsReassembler :
    (buffers : Buffers) (es : List Event)
    → IsReassembler buffers
    → AreFragments es
    → IsReassembler (run buffers es)
unfolding run
run-IsReassembler buffers [] r w = r
run-IsReassembler buffers (accepts now f ∷ es) r w =
    run-IsReassembler (accept now buffers f).1 es (accept-Keeps now buffers f r w.0).1 w.1
run-IsReassembler buffers (collects now ∷ es) r w =
    run-IsReassembler (collect_garbage now buffers) es (collect_garbage-IsReassembler now buffers r)
      w

-- Whatever well-formed fragments arrive, and whenever garbage is collected, every buffer is still
-- waiting for a fragment, its counter counts the fragments it holds, and the next well-formed
-- fragment is taken with no panic.
pub run-Keeps :
    (es : List Event) (now : ℕ) (f : TuicUdpFragment)
    → AreFragments es
    → IsFragment f
    → IsReassembler (run no_buffers es) × ((accept now (run no_buffers es) f).0 ≢ panic)
run-Keeps es now f w v =
    let r = run-IsReassembler no_buffers es (λ a p. tt) w in (r, (accept-Keeps now _ f r v).0)
