-- ===== src/Dae/Tests.antt =====
-- An adapter that opens two connections and closes one.
use zuicity.Prelude.{◌≡◌, refl, [], ◌∷◌, false}
use zuicity.Dae.{
  tcp, udp, DaeStream, DaeAdapter, fresh_adapter, connect_succeeded, drop_stream, close_once,
  connection_opened, connection_closed,
}
use zuicity.Dae.Counts.{
  opened, dropped, Reachable, initially, then_step, Tallies, Reachable-Tallies,
}

abbrev two_open : DaeAdapter
two_open = connect_succeeded udp (98 ∷ []) (connect_succeeded tcp (97 ∷ []) fresh_adapter)

abbrev first : DaeStream
first = record { network = tcp; target = 97 ∷ []; closed = false }

abbrev second : DaeStream
second = record { network = udp; target = 98 ∷ []; closed = false }

abbrev one_open : DaeAdapter
one_open = drop_stream first (second ∷ []) two_open

one_open-Reachable : Reachable one_open
unfolding connect_succeeded
one_open-Reachable =
    then_step two_open one_open
      (then_step (connect_succeeded tcp (97 ∷ []) fresh_adapter) two_open
        (then_step fresh_adapter (connect_succeeded tcp (97 ∷ []) fresh_adapter) initially
          (opened tcp (97 ∷ []) fresh_adapter))
        (opened udp (98 ∷ []) (connect_succeeded tcp (97 ∷ []) fresh_adapter)))
      (dropped two_open.hooks (second ∷ []) [] first)

one_counted : one_open.hooks.metrics.open_connections ≡ 1
unfolding connect_succeeded drop_stream close_once connection_opened connection_closed
one_counted = refl

Reachable-Tallies_example : Tallies one_open.hooks one_open.streams
Reachable-Tallies_example = Reachable-Tallies one_open one_open-Reachable
