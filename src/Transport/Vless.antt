-- ===== src/Transport/Vless.antt =====
-- crates/zuicity-transport/src/lib.rs: the state machine that removes the VLESS response header
-- from a stream, `VlessResponseHeaderState` and `poll_read` of `VlessTcpProxyTargetStream`. What
-- the inner stream does is a list of events in the order of time; with no event left it is at its
-- end.
pub mod Turns
pub mod Header
pub mod Drain
pub mod Frames
mod Tests
use zuicity.Prelude.{
  ℕ, zero, suc, ◌+◌, ◌-◌, min, List, [], ◌∷◌, ◌++◌, Bool, not, ◌==◌, if◌then◌else◌, length, get_or,
  take, drop, Option, none, some,
}
use zuicity.Prelude.Bytes.{Bytes}

pub data VlessError : Type 0 where
  truncated_header truncated_addons : VlessError
  invalid_version : ℕ → VlessError
  inner : ℕ → VlessError

-- The inner stream is not ready, has the bytes of a segment, or fails.
pub data Event : Type 0 where
  not_ready : Event
  segment : Bytes → Event
  broken : ℕ → Event

-- What `poll_read` returns: `Pending`, an error, or the bytes that it put into the buffer.
pub data Polled : Type 0 where
  pending : Polled
  failed : VlessError → Polled
  filled : Bytes → Polled

-- What is left of a segment.
abbrev pub rest_of : Bytes → List Event → List Event
rest_of [] events = events
rest_of (b ∷ bs) events = segment (b ∷ bs) ∷ events

-- `poll_read` of the inner stream with room for `n` bytes.
abbrev pub inner_poll : ℕ → List Event → Polled × List Event
inner_poll n [] = (filled [], [])
inner_poll n (not_ready ∷ events) = (pending, events)
inner_poll n (broken e ∷ events) = (failed (inner e), events)
inner_poll n (segment bytes ∷ events) = (filled (take n bytes), rest_of (drop n bytes) events)

-- `Prefix` has the bytes that were read, of two.
pub data VlessResponseHeaderState : Type 0 where
  prefix : Bytes → VlessResponseHeaderState
  addons : ℕ → VlessResponseHeaderState
  ready : VlessResponseHeaderState

-- A turn of the loop returns, or goes on.
pub data Turn : Type 0 where
  stop : Polled → VlessResponseHeaderState → Turn
  go_on : VlessResponseHeaderState → Turn

abbrev pub prefix_read : Bytes → Bytes → Turn
prefix_read got new =
    let bytes = got ++ new in
    if length bytes == length got
    then stop (failed truncated_header) (prefix bytes)
    else if not (length bytes == 2)
    then go_on (prefix bytes)
    else if not (get_or bytes 0 0 == 0)
    then stop (failed (invalid_version (get_or bytes 0 0))) (prefix bytes)
    else if get_or bytes 1 0 == 0
    then go_on ready
    else go_on (addons (get_or bytes 1 0))

abbrev pub addons_read : ℕ → Bytes → Turn
addons_read remaining new =
    if length new == 0
    then stop (failed truncated_addons) (addons remaining)
    else if (remaining - length new) == 0
    then go_on ready
    else go_on (addons (remaining - length new))

-- The room that a turn gives to the inner stream.
abbrev pub room : VlessResponseHeaderState → ℕ
room (prefix got) = 2 - length got
room (addons remaining) = min remaining 64
room ready = 0

abbrev pub header_turn : VlessResponseHeaderState → Polled → Turn
header_turn s pending = stop pending s
header_turn s (failed e) = stop (failed e) s
header_turn (prefix got) (filled new) = prefix_read got new
header_turn (addons remaining) (filled new) = addons_read remaining new
header_turn ready (filled new) = go_on ready

-- A poll that returned, with the state and the events that it leaves; nothing where the fuel runs
-- out.
abbrev pub Returned : Type 0
Returned = Option (Polled × VlessResponseHeaderState × List Event)

abbrev pub take_turn :
    (VlessResponseHeaderState → List Event → Returned) → Turn × List Event → Returned
take_turn next (stop p s, events) = some (p, s, events)
take_turn next (go_on s, events) = next s events

abbrev pub turned : VlessResponseHeaderState → Polled × List Event → Turn × List Event
turned s (p, events) = (header_turn s p, events)

abbrev pub passed : Polled × List Event → Returned
passed (p, events) = some (p, ready, events)

abbrev pub poll_on : ℕ → ℕ → VlessResponseHeaderState → List Event → Returned
poll_on zero n s events = none
poll_on (suc fuel) n ready events = passed (inner_poll n events)
poll_on (suc fuel) n (prefix got) events =
    take_turn (λ s. λ rest. poll_on fuel n s rest)
      (turned (prefix got) (inner_poll (room (prefix got)) events))
poll_on (suc fuel) n (addons remaining) events =
    take_turn (λ s. λ rest. poll_on fuel n s rest)
      (turned (addons remaining) (inner_poll (room (addons remaining)) events))

-- Every turn that goes on reads a byte of the header, which has at most 257.
unfoldable pub poll_read : ℕ → VlessResponseHeaderState → List Event → Returned
poll_read n s events = poll_on 258 n s events
