-- ===== src/Transport/Tuic/Reassembly.antt =====
-- crates/zuicity-transport/src/lib.rs: `TuicUdpReassembler`. The hash map is a function from the
-- association id and the packet id to the buffer under that key. An instant is its nanoseconds.
pub mod Slots
pub mod Invariant
pub mod Delivery
pub mod Interleaving
use zuicity.Prelude.{
  ℕ, suc, ◌+◌, ◌-◌, ◌*◌, ◌%◌, List, [], ◌∷◌, ◌++◌, Bool, true, false, not, ◌&&◌, Option, none, some,
  ◌==◌, ltb, if◌then◌else◌, length, get_elem?, set, replicate, Outcome, ok, err, panic, ◌>>=◌,
}
use zuicity.Prelude.Bytes.{Bytes}
use zuicity.Transport.Defs.{
  SocketAddr, TransportError, first_fragment_missing_address, fragment_total_changed,
  duplicate_fragment, reassembled_without_address,
}
use zuicity.Transport.Tuic.Target.{packet_error}
use zuicity.Transport.Tuic.Fragment.{TuicUdpFragment}

pub record TuicUdpReassemblyBuffer : Type 0 where
  pub fragments : List (Option Bytes)
  pub received : ℕ
  pub target : Option SocketAddr
  pub created : ℕ

-- `buffers` of the reassembler.
abbrev pub Buffers : Type 0
Buffers = ℕ → ℕ → Option TuicUdpReassemblyBuffer

abbrev pub no_buffers : Buffers
no_buffers association_id packet_id = none

-- `insert`, or `remove` for `none`.
abbrev pub update : Buffers → ℕ → ℕ → Option TuicUdpReassemblyBuffer → Buffers
update buffers a p entry a' p' = if a' == a && p' == p then entry else buffers a' p'

-- What a call returns, with the buffers it leaves.
abbrev pub Accepted : Type 0
Accepted = Outcome TransportError (Option (Bytes × SocketAddr)) × Buffers

-- `payload.extend_from_slice(&chunk.expect(…))` over the chunks
unfoldable pub concat_chunks : List (Option Bytes) → Outcome TransportError Bytes
concat_chunks [] = ok []
concat_chunks (none ∷ slots) = panic
concat_chunks (some chunk ∷ slots) = do payload ← concat_chunks slots; ok (chunk ++ payload)

-- `or_insert_with`
pub entry_or_insert : Option TuicUdpReassemblyBuffer → ℕ → ℕ → TuicUdpReassemblyBuffer
entry_or_insert (some buffer) total now = buffer
entry_or_insert none total now = record {
  fragments = replicate total none;
  received = 0;
  target = none;
  created = now;
}

-- All fragments are there: the buffer is removed, whatever comes of it.
finish_with :
    Option SocketAddr → List (Option Bytes) → Outcome TransportError (Option (Bytes × SocketAddr))
finish_with none slots = packet_error reassembled_without_address
finish_with (some target) slots = do payload ← concat_chunks slots; ok (some (payload, target))

-- The target of the buffer behind a fragment that is stored.
new_target : TuicUdpFragment → Option SocketAddr → Outcome TransportError (Option SocketAddr)
new_target f old =
    if f.fragment_id == 0
    then elim f.target [ none ↦ packet_error first_fragment_missing_address | some t ↦ ok (some t) ]
    else ok old

-- `received` is a `u8`.
store :
    Buffers
    → TuicUdpFragment
    → TuicUdpReassemblyBuffer
    → Outcome TransportError (Option SocketAddr)
    → Accepted
store buffers f b (err e) = (err e, update buffers f.association_id f.packet_id (some b))
store buffers f b panic = (panic, update buffers f.association_id f.packet_id (some b))
store buffers f b (ok target) =
    let slots = set b.fragments f.fragment_id (some f.payload) in
    let received = (b.received + 1) % 256 in
    let b' = record b { fragments = slots; received = received; target = target } in
    if received == length slots
    then (finish_with target slots, update buffers f.association_id f.packet_id none)
    else (ok none, update buffers f.association_id f.packet_id (some b'))

-- `&mut buffer.fragments[fragment_id]`, and what follows it.
store_slot : Buffers → TuicUdpFragment → TuicUdpReassemblyBuffer → Option (Option Bytes) → Accepted
store_slot buffers f b none = (panic, update buffers f.association_id f.packet_id (some b))
store_slot buffers f b (some (some _)) =
    (packet_error duplicate_fragment, update buffers f.association_id f.packet_id (some b))
store_slot buffers f b (some none) = store buffers f b (new_target f b.target)

accept_into : Buffers → TuicUdpFragment → TuicUdpReassemblyBuffer → Accepted
accept_into buffers f b =
    if not (length b.fragments == f.fragment_total)
    then (packet_error fragment_total_changed, update buffers f.association_id f.packet_id none)
    else store_slot buffers f b (get_elem? b.fragments f.fragment_id)

-- A packet of one fragment needs no buffer.
accept_single : Buffers → Bytes → Option SocketAddr → Accepted
accept_single buffers payload none = (packet_error first_fragment_missing_address, buffers)
accept_single buffers payload (some target) = (ok (some (payload, target)), buffers)

unfoldable pub accept : ℕ → Buffers → TuicUdpFragment → Accepted
unfolding entry_or_insert finish_with new_target store store_slot accept_into accept_single
accept now buffers f =
    if f.fragment_total == 1
    then accept_single buffers f.payload f.target
    else accept_into buffers f
        (entry_or_insert (buffers f.association_id f.packet_id) f.fragment_total now)

-- Three minutes.
abbrev pub default_nat_timeout : ℕ
default_nat_timeout = 3 * 60 * 1_000_000_000

keep_young : ℕ → Option TuicUdpReassemblyBuffer → Option TuicUdpReassemblyBuffer
keep_young now none = none
keep_young now (some b) = if ltb (now - b.created) default_nat_timeout then some b else none

-- `created.elapsed()` is 0 for an instant ahead of the clock.
unfoldable pub collect_garbage : ℕ → Buffers → Buffers
unfolding keep_young
collect_garbage now buffers a p = keep_young now (buffers a p)
