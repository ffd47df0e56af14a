-- ===== src/Transport/Vless/Turns.antt =====
-- The turns of a poll while the response header is read.
use zuicity.Prelude.{
  ℕ, zero, suc, ◌+◌, ◌-◌, ◌≤◌, ◌<◌, ◌≡◌, refl, sym, ap, ◌∙◌, subst, List, [], ◌∷◌, ◌++◌,
  append_assoc, arith, min, length, length-append, length-take, take, drop, take-append-drop, Bool,
  true, false, not, ◌==◌, if◌then◌else◌,
}
use zuicity.Prelude.Bytes.{Bytes}
use zuicity.Transport.Vless.{
  truncated_addons, invalid_version, Event, not_ready, segment, broken, Polled, pending, failed,
  filled, rest_of, inner_poll, VlessResponseHeaderState, prefix, addons, ready, Turn, stop, go_on,
  prefix_read, addons_read,
}

-- The bytes that are still to come, and a stream that does not fail.
abbrev pub unread : List Event → Bytes
unread [] = []
unread (not_ready ∷ events) = unread events
unread (segment b ∷ events) = b ++ unread events
unread (broken e ∷ events) = []

abbrev pub AreSound : List Event → Type 0
AreSound [] = Unit
AreSound (not_ready ∷ events) = AreSound events
AreSound (segment b ∷ events) = (1 ≤ length b) × AreSound events
AreSound (broken e ∷ events) = ⊥

-- How often the stream is not ready.
abbrev pub waits : List Event → ℕ
waits [] = 0
waits (not_ready ∷ events) = suc (waits events)
waits (segment b ∷ events) = waits events
waits (broken e ∷ events) = waits events

-- In the state `s`, the bytes to come are the rest of a header and then `body`.
abbrev pub Awaits : VlessResponseHeaderState → Bytes → Bytes → Type 0
Awaits (prefix got) bytes body =
    (length got ≤ 1)
    × (n : ℕ) × (a : Bytes) × (got ++ bytes ≡ 0 ∷ n ∷ (a ++ body))
    × (length a ≡ n)
    × (n ≤ 255)
Awaits (addons remaining) bytes body =
    (a : Bytes) × (bytes ≡ a ++ body) × (length a ≡ remaining) × (1 ≤ remaining) × (remaining ≤ 255)
Awaits ready bytes body = bytes ≡ body

-- How many turns the state can need.
abbrev pub need : VlessResponseHeaderState → ℕ
need (prefix got) = 258 - length got
need (addons remaining) = remaining + 1
need ready = 1

-- Not ready, for one of at most `w` times; or at least a byte, where there are bytes and room.
abbrev pub Answered : ℕ → ℕ → Bytes → Polled × List Event → Type 0
Answered k w bytes (pending, events) =
    AreSound events × (unread events ≡ bytes) × (waits events < w)
Answered k w bytes (failed e, events) = ⊥
Answered k w bytes (filled new, events) =
    AreSound events
    × (bytes ≡ new ++ unread events)
    × (length new ≤ k)
    × (1 ≤ k → 1 ≤ length bytes → 1 ≤ length new)
    × (waits events ≤ w)

rest_of-AreSound : (b : Bytes) (events : List Event) → AreSound events → AreSound (rest_of b events)
rest_of-AreSound [] events v = v
rest_of-AreSound (x ∷ b) events v = (omega arith, v)

unread-rest_of : (b : Bytes) (events : List Event) → unread (rest_of b events) ≡ b ++ unread events
unread-rest_of [] events = refl
unread-rest_of (x ∷ b) events = refl

waits-rest_of : (b : Bytes) (events : List Event) → waits (rest_of b events) ≡ waits events
waits-rest_of [] events = refl
waits-rest_of (x ∷ b) events = refl

pub inner_poll-Answered :
    (k w : ℕ) (events : List Event)
    → waits events ≤ w
    → AreSound events
    → Answered k w (unread events) (inner_poll k events)
inner_poll-Answered k w [] h v = (tt, refl, omega arith, λ _ l. l, h)
inner_poll-Answered k w (not_ready ∷ events) h v = (v, refl, omega (arith, h))
inner_poll-Answered k w (broken e ∷ events) h v = v
inner_poll-Answered k w (segment b ∷ events) h v = (
  rest_of-AreSound (drop k b) events v.1,
  ap (λ (x : Bytes). x ++ unread events) (sym (take-append-drop k b))
      ∙ append_assoc (take k b) (drop k b) (unread events)
      ∙ ap (λ (x : Bytes). take k b ++ x) (sym (unread-rest_of (drop k b) events)),
  omega (arith, length-take k b),
  λ l _. omega (arith, length-take k b, v.0, l),
  omega (arith, waits-rest_of (drop k b) events, h),
)

-- A turn that goes on leaves the rest of the header, and needs fewer turns.
abbrev pub Goes : ℕ → Bytes → Bytes → Turn → Type 0
Goes n bytes body (stop p s) = ⊥
Goes n bytes body (go_on s) = (need s < n) × Awaits s bytes body

-- Both bytes of the prefix are there.
abbrev decided : ℕ → ℕ → Turn
decided p q =
    if not (p == 0)
    then stop (failed (invalid_version p)) (prefix (p ∷ q ∷ []))
    else if q == 0
    then go_on ready
    else go_on (addons q)

decided-Goes :
    (p q n : ℕ) (a bytes body : Bytes)
    → p ∷ q ∷ bytes ≡ 0 ∷ n ∷ (a ++ body)
    → length a ≡ n
    → n ≤ 255
    → Goes 257 bytes body (decided p q)
decided-Goes zero zero n [] bytes body e l k = (omega arith, ground (arith, e))
decided-Goes zero zero n (x ∷ a) bytes body e l k = absurd (ground (arith, e, l))
decided-Goes zero (suc q) n a bytes body e l k =
    let t : decided zero (suc q) ≡ go_on (addons (suc q)) = ground arith in
    subst (Goes 257 bytes body) (sym t) (
      ground (arith, e, l, k),
      (a, ground (arith, e), ground (arith, e, l), omega arith, ground (arith, e, k)),
    )
decided-Goes (suc p) q n a bytes body e l k = absurd (ground (arith, e))

pub prefix_read-Goes :
    (got new bytes body : Bytes)
    → Awaits (prefix got) (new ++ bytes) body
    → 1 ≤ length new
    → length new ≤ 2 - length got
    → Goes (need (prefix got)) bytes body (prefix_read got new)
prefix_read-Goes [] [] bytes body v l k = absurd (omega (arith, l))
prefix_read-Goes [] (p ∷ []) bytes body (_, n, a, e, s, b) l k =
    (omega arith, (omega arith, n, a, e, s, b))
prefix_read-Goes [] (p ∷ q ∷ []) bytes body (_, n, a, e, s, b) l k =
    let d = decided-Goes p q n a bytes body e s b in weaken (decided p q) d
  where
    weaken : (t : Turn) → Goes 257 bytes body t → Goes 258 bytes body t
    weaken (go_on s) (l, w) = (omega (arith, l), w)
    weaken (stop x s) w = w
prefix_read-Goes [] (p ∷ q ∷ r ∷ new) bytes body v l k = absurd (omega (arith, k))
prefix_read-Goes (g ∷ []) [] bytes body v l k = absurd (omega (arith, l))
prefix_read-Goes (g ∷ []) (q ∷ []) bytes body (_, n, a, e, s, b) l k =
    decided-Goes g q n a bytes body e s b
prefix_read-Goes (g ∷ []) (q ∷ r ∷ new) bytes body v l k = absurd (omega (arith, k))
prefix_read-Goes (g ∷ h ∷ got) new bytes body v l k = absurd (omega (arith, v.0))

split_front :
    (new bytes a body : Bytes)
    → new ++ bytes ≡ a ++ body
    → length new ≤ length a
    → (c : Bytes) × (a ≡ new ++ c) × (bytes ≡ c ++ body)
split_front [] bytes a body e l = (a, refl, e)
split_front (x ∷ new) bytes [] body e l = absurd (omega (arith, l))
split_front (x ∷ new) bytes (y ∷ a) body e l =
    let (c, p, q) = split_front new bytes a body (ground (arith, e)) (omega (arith, l)) in
    (c, ground (arith, e, p), q)

pub addons_read-Goes :
    (remaining : ℕ) (new bytes body : Bytes)
    → Awaits (addons remaining) (new ++ bytes) body
    → 1 ≤ length new
    → length new ≤ min remaining 64
    → Goes (need (addons remaining)) bytes body (addons_read remaining new)
addons_read-Goes remaining new bytes body (a, e, l, u, v) k m =
    let (c, p, q) = split_front new bytes a body e (omega (arith, l, m)) in
    let size : length c ≡ remaining - length new =
      omega (arith, ap length p, length-append new c, l) in
    chosen c q size (length new == 0) ((remaining - length new) == 0) refl refl
  where
    chosen :
        (c : Bytes)
        → bytes ≡ c ++ body
        → length c ≡ remaining - length new
        → (x y : Bool) → (length new == 0) ≡ x
        → ((remaining - length new) == 0) ≡ y
        → Goes (need (addons remaining)) bytes body (
            if x
            then stop (failed truncated_addons) (addons remaining)
            else if y
            then go_on ready
            else go_on (addons (remaining - length new)))
    chosen c q size true y ex ey = absurd (ground (arith, ex, k))
    chosen [] q size false true ex ey = (omega (arith, u), q)
    chosen (z ∷ c) q size false true ex ey = absurd (ground (arith, ey, size))
    chosen c q size false false ex ey =
        (omega (arith, k, m), (c, q, size, ground (arith, ey), omega (arith, v)))
