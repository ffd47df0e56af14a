-- ===== src/Transport/Vless/Header.antt =====
-- The polls of a stream whose first bytes are a VLESS response header.
use zuicity.Prelude.{
  ℕ, zero, suc, ◌≤◌, ◌<◌, ◌≡◌, refl, sym, ap, ◌∙◌, subst, List, ◌++◌, arith, length, length-append,
  none, some,
}
use zuicity.Prelude.Bytes.{Bytes}
use zuicity.Transport.Vless.{
  Event, Polled, pending, failed, filled, inner_poll, VlessResponseHeaderState, prefix, addons,
  ready, Turn, stop, go_on, prefix_read, addons_read, room, Returned, take_turn, turned, passed,
  poll_on, poll_read,
}
use zuicity.Transport.Vless.Turns.{
  Answered, AreSound, Awaits, Goes, addons_read-Goes, inner_poll-Answered, need, prefix_read-Goes,
  unread, waits,
}

-- What a poll with room for `n` bytes may return, of a stream that is not ready at most `w` times
-- more. It is not ready, and fewer such times are left; or it gives a front part of `body`, at most
-- `n` bytes and at least one where there are room and a byte left. Either way the bytes to come are
-- the rest.
abbrev pub Serves : ℕ → ℕ → Bytes → Returned → Type 0
Serves n w body none = ⊥
Serves n w body (some (pending, s, events)) =
    AreSound events × Awaits s (unread events) body × (waits events < w)
Serves n w body (some (failed e, s, events)) = ⊥
Serves n w body (some (filled out, s, events)) =
    (left : Bytes) × (body ≡ out ++ left)
    × (length out ≤ n)
    × (1 ≤ n → 1 ≤ length body → 1 ≤ length out)
    × AreSound events
    × (waits events ≤ w)
    × Awaits s (unread events) left
    × (s ≡ ready)

passed-Serves :
    (n w : ℕ) (bytes body : Bytes) (r : Polled × List Event)
    → Answered n w bytes r
    → bytes ≡ body
    → Serves n w body (passed r)
passed-Serves n w bytes body (pending, events) (v, e, h) q = (v, e ∙ q, h)
passed-Serves n w bytes body (failed x, events) v q = v
passed-Serves n w bytes body (filled new, events) (v, e, l, k, h) q = (
  unread events,
  sym q ∙ e,
  l,
  λ room some. k room (omega (arith, some, ap (length {A = ℕ}) q)),
  v,
  h,
  refl,
  refl,
)

-- A poll with room for `n` bytes, of a stream that is not ready at most `w` times more.
module _ (n w : ℕ) where
  take_turn-Serves :
      (bound : ℕ) (body : Bytes) (t : Turn) (events : List Event)
      (next : VlessResponseHeaderState → List Event → Returned)
      → AreSound events
      → Goes bound (unread events) body t
      → ((s : VlessResponseHeaderState)
          → need s < bound
          → Awaits s (unread events) body
          → Serves n w body (next s events))
      → Serves n w body (take_turn next (t, events))
  take_turn-Serves bound body (stop p s) events next v g f = absurd g
  take_turn-Serves bound body (go_on s) events next v g f = f s g.0 g.1

  abbrev Continues : ℕ → Bytes → (VlessResponseHeaderState → List Event → Returned) → Type 0
  Continues bound body next =
      (s : VlessResponseHeaderState) (events : List Event)
      → need s < bound
      → waits events ≤ w
      → AreSound events
      → Awaits s (unread events) body
      → Serves n w body (next s events)

  prefix-Serves :
      (got bytes body : Bytes) (r : Polled × List Event)
      (next : VlessResponseHeaderState → List Event → Returned)
      → Answered (room (prefix got)) w bytes r
      → Awaits (prefix got) bytes body
      → Continues (need (prefix got)) body next
      → Serves n w body (take_turn next (turned (prefix got) r))
  prefix-Serves got bytes body (pending, events) next (v, e, i) a f =
      (v, subst (λ (b : Bytes). Awaits (prefix got) b body) (sym e) a, i)
  prefix-Serves got bytes body (failed x, events) next v a f = absurd v
  prefix-Serves got bytes body (filled new, events) next (v, e, l, k, i) a f =
      let (h, m, c, q, s, b) = a in
      let some_left : 1 ≤ length bytes = omega (arith, ap length q, length-append got bytes, h) in
      take_turn-Serves (need (prefix got)) body (prefix_read got new) events next v
        (prefix_read-Goes got new (unread events) body
          (subst (λ (b : Bytes). Awaits (prefix got) b body) e a) (k (omega (arith, h)) some_left)
          l)
        (λ s l a. f s events l i v a)

  addons-Serves :
      (remaining : ℕ) (bytes body : Bytes) (r : Polled × List Event)
      (next : VlessResponseHeaderState → List Event → Returned)
      → Answered (room (addons remaining)) w bytes r
      → Awaits (addons remaining) bytes body
      → Continues (need (addons remaining)) body next
      → Serves n w body (take_turn next (turned (addons remaining) r))
  addons-Serves remaining bytes body (pending, events) next (v, e, i) a f =
      (v, subst (λ (b : Bytes). Awaits (addons remaining) b body) (sym e) a, i)
  addons-Serves remaining bytes body (failed x, events) next v a f = absurd v
  addons-Serves remaining bytes body (filled new, events) next (v, e, l, k, i) a f =
      let (c, q, s, u, b) = a in
      let some_left : 1 ≤ length bytes = omega (arith, ap length q, length-append c body, s, u) in
      take_turn-Serves (need (addons remaining)) body (addons_read remaining new) events next v
        (addons_read-Goes remaining new (unread events) body
          (subst (λ (b : Bytes). Awaits (addons remaining) b body) e a)
          (k (omega (arith, u)) some_left) l)
        (λ s l a. f s events l i v a)

need-pos : (s : VlessResponseHeaderState) (bytes body : Bytes) → Awaits s bytes body → 1 ≤ need s
need-pos (prefix got) bytes body v = omega (arith, v.0)
need-pos (addons remaining) bytes body v = omega arith
need-pos ready bytes body v = omega arith

poll_on-Serves :
    (fuel n w : ℕ) (s : VlessResponseHeaderState) (events : List Event) (body : Bytes)
    → need s ≤ fuel
    → waits events ≤ w
    → AreSound events
    → Awaits s (unread events) body
    → Serves n w body (poll_on fuel n s events)
poll_on-Serves zero n w s events body h i v a =
    absurd (omega (arith, h, need-pos s (unread events) body a))
poll_on-Serves (suc fuel) n w ready events body h i v a =
    passed-Serves n w (unread events) body (inner_poll n events)
      (inner_poll-Answered n w events i v) a
poll_on-Serves (suc fuel) n w (prefix got) events body h i v a =
    prefix-Serves n w got (unread events) body _ _
      (inner_poll-Answered (room (prefix got)) w events i v) a
      (λ s rest l i v a. poll_on-Serves fuel n w s rest body (omega (arith, h, l)) i v a)
poll_on-Serves (suc fuel) n w (addons remaining) events body h i v a =
    addons-Serves n w remaining (unread events) body _ _
      (inner_poll-Answered (room (addons remaining)) w events i v) a
      (λ s rest l i v a. poll_on-Serves fuel n w s rest body (omega (arith, h, l)) i v a)

need-le : (s : VlessResponseHeaderState) (bytes body : Bytes) → Awaits s bytes body → need s ≤ 258
need-le (prefix got) bytes body v = omega arith
need-le (addons remaining) bytes body (a, q, s, u, b) = omega (arith, b)
need-le ready bytes body v = omega arith

-- However the stream is cut into segments and whenever it is not ready, a poll with room for `n`
-- bytes of a stream that holds the rest of a response header and then `body` gives the next bytes
-- of `body`, at most `n` of them, and at least one where `n` and `body` are not empty; or it is not
-- ready, after a time that the inner stream was not. It never fails, and the next poll finds the
-- same with the rest of `body`.
pub poll_read-Serves :
    (n : ℕ) (s : VlessResponseHeaderState) (events : List Event) (body : Bytes)
    → AreSound events
    → Awaits s (unread events) body
    → Serves n (waits events) body (poll_read n s events)
unfolding poll_read
poll_read-Serves n s events body v a =
    poll_on-Serves 258 n (waits events) s events body (need-le s (unread events) body a)
      (omega arith) v a
