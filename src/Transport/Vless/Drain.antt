-- ===== src/Transport/Vless/Drain.antt =====
-- Polling to the end: what a reader gets of a stream whose first bytes are a VLESS response header.
use zuicity.Prelude.{
  ℕ, zero, suc, ◌+◌, ◌≤◌, ◌≡◌, refl, sym, ap, ◌∙◌, List, [], ◌∷◌, ◌++◌, arith, length,
  length-append, none, some,
}
use zuicity.Prelude.Bytes.{Bytes}
use zuicity.Transport.Vless.{
  Event, pending, failed, filled, VlessResponseHeaderState, Returned, poll_read,
}
use zuicity.Transport.Vless.Turns.{AreSound, Awaits, unread, waits}
use zuicity.Transport.Vless.Header.{Serves, poll_read-Serves}

-- A reader that asks again where the stream is not ready, and stops where a poll gives no byte.
abbrev pub collect : Returned → (VlessResponseHeaderState → List Event → Bytes) → Bytes
collect none next = []
collect (some (pending, s, events)) next = next s events
collect (some (failed e, s, events)) next = []
collect (some (filled [], s, events)) next = []
collect (some (filled (b ∷ bs), s, events)) next = (b ∷ bs) ++ next s events

-- At most as many polls as the fuel, each with room for `n` bytes.
unfoldable pub read_to_end : ℕ → ℕ → VlessResponseHeaderState → List Event → Bytes
read_to_end zero n s events = []
read_to_end (suc fuel) n s events =
    collect (poll_read n s events) (λ s' rest. read_to_end fuel n s' rest)

nothing_left : (body : Bytes) → length body ≤ 0 → [] ≡ body
nothing_left [] h = refl
nothing_left (b ∷ body) h = absurd (omega (arith, h))

collect-body :
    (fuel n w : ℕ) (body : Bytes) (r : Returned)
    (next : VlessResponseHeaderState → List Event → Bytes)
    → 1 ≤ n
    → w + length body ≤ suc fuel
    → Serves n w body r
    → ((s : VlessResponseHeaderState) (events : List Event) (left : Bytes)
        → AreSound events
        → Awaits s (unread events) left
        → waits events + length left ≤ fuel
        → next s events ≡ left)
    → collect r next ≡ body
collect-body fuel n w body none next k l v f = absurd v
collect-body fuel n w body (some (pending, s, events)) next k l (v, a, i) f =
    f s events body v a (omega (arith, l, i))
collect-body fuel n w body (some (failed e, s, events)) next k l v f = absurd v
collect-body fuel n w [] (some (filled [], s, events)) next k l v f = refl
collect-body fuel n w (x ∷ body) (some (filled [], s, events)) next k l (left, e, _, g, _, _, _, _)
      f =
    absurd (omega (arith, g k (omega arith)))
collect-body fuel n w body (some (filled (b ∷ bs), s, events)) next k l (left, e, _, _, v, i, a, _)
      f =
    ap (◌++◌ (b ∷ bs)) (
      f s events left v a (omega (arith, l, i, ap (length {A = ℕ}) e, length-append (b ∷ bs) left)))
    ∙ sym e

-- Polled with room for at least one byte, at least as often as the number of times that the inner
-- stream is not ready and the bytes of `body` together, a stream that holds the rest of a response
-- header and then `body` gives exactly `body`, however it is cut into segments and whenever it is
-- not ready.
pub read_to_end-body :
    (fuel n : ℕ) (s : VlessResponseHeaderState) (events : List Event) (body : Bytes)
    → 1 ≤ n
    → AreSound events
    → Awaits s (unread events) body
    → waits events + length body ≤ fuel
    → read_to_end fuel n s events ≡ body
unfolding read_to_end
read_to_end-body zero n s events body k v a l = nothing_left body (omega (arith, l))
read_to_end-body (suc fuel) n s events body k v a l =
    collect-body fuel n (waits events) body (poll_read n s events) (read_to_end fuel n) k l
      (poll_read-Serves n s events body v a)
      (λ s' rest left v' a' l'. read_to_end-body fuel n s' rest left k v' a' l')
