-- ===== src/Dae/Counts.antt =====
-- The counters of the dae adapter in every state that it can reach.
use zuicity.Prelude.{
  ℕ, suc, ◌+◌, ◌%◌, ◌≤◌, ◌<◌, ◌≡◌, refl, ap, ◌∙◌, List, [], ◌∷◌, ◌++◌, Bool, true, false, ◌==◌,
  if◌then◌else◌, arith,
}
use zuicity.Prelude.Bytes.{Bytes}
use zuicity.Dae.{
  u64_range, fetch_add, decrement, DaeNetwork, LifecycleCall, on_open, on_close,
  on_connection_event, DaeRuntimeHooks, connection_opened, connection_closed, connection_failed,
  bytes_sent, bytes_received, DaeStream, close_once, DaeAdapter, fresh_adapter, connect_succeeded,
  connect_failed, polled_write, polled_read, drop_stream,
}

pub data Step : DaeAdapter → DaeAdapter → Type 0 where
  opened : (n : DaeNetwork) (t : Bytes) (a : DaeAdapter) → Step a (connect_succeeded n t a)
  refused : (n : DaeNetwork) (t : Bytes) (a : DaeAdapter) → Step a (connect_failed n t a)
  wrote : (n : ℕ) (a : DaeAdapter) → Step a (polled_write n a)
  received : (n : ℕ) (a : DaeAdapter) → Step a (polled_read n a)
  dropped :
      (h : DaeRuntimeHooks) (front back : List DaeStream) (s : DaeStream)
      → Step
          (record { hooks = h; streams = front ++ (s ∷ back) })
          (drop_stream s (front ++ back) (record { hooks = h; streams = front ++ (s ∷ back) }))

pub data Reachable : DaeAdapter → Type 0 where
  initially : Reachable fresh_adapter
  then_step : (a b : DaeAdapter) → Reachable a → Step a b → Reachable b

-- How often the lifecycle object was told of an opened and of a closed connection.
abbrev pub opens : List LifecycleCall → ℕ
opens [] = 0
opens (on_open ∷ calls) = suc (opens calls)
opens (on_close ∷ calls) = opens calls
opens (on_connection_event _ _ _ ∷ calls) = opens calls

abbrev pub closes : List LifecycleCall → ℕ
closes [] = 0
closes (on_open ∷ calls) = closes calls
closes (on_close ∷ calls) = suc (closes calls)
closes (on_connection_event _ _ _ ∷ calls) = closes calls

abbrev pub live_of : Bool → ℕ
live_of true = 0
live_of false = 1

-- The streams that have not been closed.
abbrev pub live : List DaeStream → ℕ
live [] = 0
live (s ∷ streams) = live_of s.closed + live streams

live-append : (xs ys : List DaeStream) → live (xs ++ ys) ≡ live xs + live ys
live-append [] ys = omega arith
live-append (x ∷ xs) ys = omega (arith, live-append xs ys)

-- While fewer than 2 ^ 64 connections were opened, the counters are the calls, and the open ones
-- are the live streams.
pub record Tallies (h : DaeRuntimeHooks) (streams : List DaeStream) : Type 0 where
  pub balance : opens h.lifecycle ≡ closes h.lifecycle + live streams
  pub opened_count : h.metrics.opened_connections ≡ opens h.lifecycle % u64_range
  pub closed_count : h.metrics.closed_connections ≡ closes h.lifecycle % u64_range
  pub open_count : opens h.lifecycle < u64_range → h.metrics.open_connections ≡ live streams

closed-Tallies :
    (h : DaeRuntimeHooks) (front back : List DaeStream) (s : DaeStream) (b : Bool)
    → s.closed ≡ b
    → Tallies h (front ++ (s ∷ back))
    → Tallies (if b then h else connection_closed s.network s.target h) (front ++ back)
unfolding connection_closed
closed-Tallies h front back s true e t =
    let l : live (front ++ (s ∷ back)) ≡ live (front ++ back) =
      omega (arith, live-append front (s ∷ back), ap live_of e, live-append front back) in
    record {
      balance = omega (arith, t.balance, l);
      opened_count = t.opened_count;
      closed_count = t.closed_count;
      open_count = λ k. t.open_count k ∙ l;
    }
closed-Tallies h front back s false e t =
    let l : live (front ++ (s ∷ back)) ≡ suc (live (front ++ back)) =
      omega (arith, live-append front (s ∷ back), ap live_of e, live-append front back) in
    record {
      balance = omega (arith, t.balance, l);
      opened_count = t.opened_count;
      closed_count = omega (arith, t.closed_count);
      open_count =
          λ k. lowered h.metrics.open_connections (live (front ++ back)) (t.open_count k ∙ l);
    }
  where
    lowered : (n m : ℕ) → n ≡ suc m → decrement n ≡ m
    lowered n m q = ground (arith, q)

drop_stream-Tallies :
    (h : DaeRuntimeHooks) (front back : List DaeStream) (s : DaeStream) (b : Bool)
    → s.closed ≡ b
    → Tallies h (front ++ (s ∷ back))
    → Tallies (close_once s h).1 (front ++ back)
unfolding close_once
drop_stream-Tallies h front back s true e t = rw e (closed-Tallies h front back s true e t)
drop_stream-Tallies h front back s false e t = rw e (closed-Tallies h front back s false e t)

connect_succeeded-Tallies :
    (n : DaeNetwork) (target : Bytes) (a : DaeAdapter)
    → Tallies a.hooks a.streams
    → Tallies (connect_succeeded n target a).hooks (connect_succeeded n target a).streams
unfolding connect_succeeded connection_opened
connect_succeeded-Tallies n target a t = record {
  balance = omega (arith, t.balance);
  opened_count = omega (arith, t.opened_count);
  closed_count = t.closed_count;
  open_count = λ k.
      raised a.hooks.metrics.open_connections (live a.streams) (opens a.hooks.lifecycle)
        (t.open_count (omega (arith, k))) (omega (arith, t.balance)) k;
}
  where
    raised : (o l n : ℕ) → o ≡ l → l ≤ n → suc n < u64_range → fetch_add o 1 ≡ 1 + l
    raised o l n q h k = omega (arith, q, h, k)

polled_write-Tallies :
    (n : ℕ) (a : DaeAdapter)
    → Tallies a.hooks a.streams
    → Tallies (polled_write n a).hooks (polled_write n a).streams
unfolding polled_write bytes_sent
polled_write-Tallies n a t = some_or_none (n == 0)
  where
    some_or_none :
        (b : Bool)
        → Tallies
            (if b then a else record a { hooks = bytes_sent n a.hooks }).hooks
            (if b then a else record a { hooks = bytes_sent n a.hooks }).streams
    some_or_none true = t
    some_or_none false = record {
      balance = t.balance;
      opened_count = t.opened_count;
      closed_count = t.closed_count;
      open_count = t.open_count;
    }

polled_read-Tallies :
    (n : ℕ) (a : DaeAdapter)
    → Tallies a.hooks a.streams
    → Tallies (polled_read n a).hooks (polled_read n a).streams
unfolding polled_read bytes_received
polled_read-Tallies n a t = some_or_none (n == 0)
  where
    some_or_none :
        (b : Bool)
        → Tallies
            (if b then a else record a { hooks = bytes_received n a.hooks }).hooks
            (if b then a else record a { hooks = bytes_received n a.hooks }).streams
    some_or_none true = t
    some_or_none false = record {
      balance = t.balance;
      opened_count = t.opened_count;
      closed_count = t.closed_count;
      open_count = t.open_count;
    }

Step-Tallies : (a b : DaeAdapter) → Step a b → Tallies a.hooks a.streams → Tallies b.hooks b.streams
unfolding connect_failed connection_failed drop_stream
Step-Tallies _ _ (opened n target a) t = connect_succeeded-Tallies n target a t
Step-Tallies _ _ (refused n target a) t = record {
  balance = t.balance;
  opened_count = t.opened_count;
  closed_count = t.closed_count;
  open_count = t.open_count;
}
Step-Tallies _ _ (wrote n a) t = polled_write-Tallies n a t
Step-Tallies _ _ (received n a) t = polled_read-Tallies n a t
Step-Tallies _ _ (dropped h front back s) t = drop_stream-Tallies h front back s s.closed refl t

-- In every reachable state of the adapter each live stream stands for one call of `on_open` without
-- its `on_close`, the two total counters are the numbers of those calls modulo 2 ^ 64, and while
-- fewer than 2 ^ 64 connections were opened the counter of open connections is the number of live
-- streams.
pub Reachable-Tallies : (a : DaeAdapter) → Reachable a → Tallies a.hooks a.streams
Reachable-Tallies _ initially = record {
  balance = omega arith;
  opened_count = omega arith;
  closed_count = omega arith;
  open_count = λ k. omega arith;
}
Reachable-Tallies _ (then_step a b r s) = Step-Tallies a b s (Reachable-Tallies a r)
