-- ===== src/Transport/Vless/Tests.antt =====
-- A VLESS response header that arrives in pieces.
use zuicity.Prelude.{◌≡◌, refl, List, [], ◌∷◌, arith, some}
use zuicity.Transport.Vless.{Event, not_ready, segment, prefix, addons, pending, poll_read}
use zuicity.Transport.Vless.Header.{Serves, poll_read-Serves}
use zuicity.Transport.Vless.Drain.{read_to_end, read_to_end-body}

-- The header 0, 2 and two bytes of addons, and the body 7, 8.
abbrev events : List Event
events =
    segment (0 ∷ [])
    ∷ segment (2 ∷ 5 ∷ [])
    ∷ not_ready
    ∷ segment (6 ∷ 7 ∷ [])
    ∷ segment (8 ∷ [])
    ∷ []

first_poll :
    poll_read 4 (prefix []) events
    ≡ some (pending, addons 1, segment (6 ∷ 7 ∷ []) ∷ segment (8 ∷ []) ∷ [])
unfolding poll_read
first_poll = refl

poll_read-Serves_example : Serves 4 1 (7 ∷ 8 ∷ []) (poll_read 4 (prefix []) events)
poll_read-Serves_example =
    poll_read-Serves 4 (prefix []) events (7 ∷ 8 ∷ [])
      (omega arith, (omega arith, (omega arith, (omega arith, tt))))
      (omega arith, 2, 5 ∷ 6 ∷ [], refl, refl, omega arith)

-- Three polls: not ready, the 7, and the 8.
read_to_end-body_example : read_to_end 3 4 (prefix []) events ≡ 7 ∷ 8 ∷ []
read_to_end-body_example =
    read_to_end-body 3 4 (prefix []) events (7 ∷ 8 ∷ []) (omega arith)
      (omega arith, (omega arith, (omega arith, (omega arith, tt))))
      (omega arith, 2, 5 ∷ 6 ∷ [], refl, refl, omega arith) (omega arith)
