-- ===== src/Client/Socks5/Handshake.antt =====
-- The SOCKS5 dialer of the transport crate (`socks5_connect`) against the SOCKS5 server of the
-- client (`handle_socks5_connect`, up to its reply): each reads what the other writes. The order in
-- time is not modelled: each side's input is all that the other sends.
use zuicity.Prelude.{
  ◌≡◌, refl, sym, ap, ◌∙◌, [], ◌∷◌, append_assoc, Bool, none, arith, Outcome, ok, err,
}
use zuicity.Prelude.Bytes.{Bytes}
use zuicity.Session.{Wire, ◌>>◌, after, return, write_all}
use zuicity.Session.Laws.{before}
use zuicity.Protocol.{IsPort}
use zuicity.Transport.{OwnedProxyAddress, OwnedProxyHeader, TransportError}
use zuicity.Transport.Socks5
use zuicity.Transport.Socks5.{
  Socks5DialerLink, socks5_negotiate_auth, socks5_connect, encode_socks5_target, write_target,
  read_connect_reply,
}
use zuicity.Client.Defs.{ClientError, TcpForwardTarget}
use zuicity.Client.Socks5.{connect_reply, relay_socks5_connect, handle_socks5_connect}
use zuicity.Client.Socks5.Inbound.{
  IsTarget, connect_request, read_socks5_connect_target-wire, target_of, written,
}

-- A link with no credentials.
abbrev pub anonymous : Socks5DialerLink
anonymous = record { username = none; password = none }

write_target-wire :
    (valid_utf8 : Bytes → Bool) (h : OwnedProxyHeader) (a : OwnedProxyAddress) (w : Wire)
    → h.address ≡ a
    → IsTarget valid_utf8 a
    → write_target (encode_socks5_target h (5 ∷ 1 ∷ 0 ∷ [])) w
      ≡ (ok tt, written w (connect_request a h.port))
unfolding encode_socks5_target
write_target-wire valid_utf8 h (OwnedProxyAddress.ipv4 octets) w q k = rw q refl
write_target-wire valid_utf8 h (OwnedProxyAddress.ipv6 octets) w q k = rw q refl
write_target-wire valid_utf8 h (OwnedProxyAddress.domain name) w q k = rw q (ground (arith, k))

read_connect_reply-wire : (w : Wire) → read_connect_reply (before connect_reply w) ≡ (ok tt, w)
read_connect_reply-wire w = refl

pub socks5_negotiate_auth-anonymous :
    (w : Wire)
    → socks5_negotiate_auth anonymous (before (5 ∷ 0 ∷ []) w) ≡ (ok tt, written w (5 ∷ 1 ∷ 0 ∷ []))
unfolding socks5_negotiate_auth
socks5_negotiate_auth-anonymous w = refl

abbrev pub dialer_bytes : OwnedProxyHeader → Bytes
dialer_bytes h = 5 ∷ 1 ∷ 0 ∷ connect_request h.address h.port

abbrev pub server_bytes : Bytes
server_bytes = 5 ∷ 0 ∷ connect_reply

-- The dialer, behind the choice of the method, writes its request and reads a reply.
socks5_connect-request :
    (valid_utf8 : Bytes → Bool) (h : OwnedProxyHeader) (w : Wire)
    → IsTarget valid_utf8 h.address
    → socks5_connect h anonymous (before (5 ∷ 0 ∷ []) w)
      ≡ read_connect_reply (written w (dialer_bytes h))
unfolding socks5_connect
socks5_connect-request valid_utf8 h w k =
    ap
      (λ r.
        after r (λ _. write_target (encode_socks5_target h (5 ∷ 1 ∷ 0 ∷ [])) >> read_connect_reply))
      (socks5_negotiate_auth-anonymous w)
    ∙ ap (λ r. after r (λ _. read_connect_reply))
        (write_target-wire valid_utf8 h h.address (written w (5 ∷ 1 ∷ 0 ∷ [])) refl k)
    ∙ ap (λ (b : Bytes). read_connect_reply (record w { output = b }))
        (append_assoc w.output (5 ∷ 1 ∷ 0 ∷ []) (connect_request h.address h.port))

-- The server, behind the request, opens the stream to the target.
handle-request :
    (valid_utf8 : Bytes → Bool) (connect : TcpForwardTarget → Outcome ClientError (Unit {0}))
    (h : OwnedProxyHeader) (w : Wire)
    → IsTarget valid_utf8 h.address
    → IsPort h.port
    → handle_socks5_connect valid_utf8 connect (before (dialer_bytes h) w)
      ≡ relay_socks5_connect connect (target_of h.address h.port) (written w (5 ∷ 0 ∷ []))
unfolding handle_socks5_connect
handle-request valid_utf8 connect h w k p =
    ap (λ r. after r (relay_socks5_connect connect))
      (read_socks5_connect_target-wire valid_utf8 h.address h.port w k p)

relay_socks5_connect-opened :
    (connect : TcpForwardTarget → Outcome ClientError (Unit {0})) (target : TcpForwardTarget)
    (w : Wire)
    → connect target ≡ ok tt
    → relay_socks5_connect connect target w ≡ (ok target, written w connect_reply)
unfolding relay_socks5_connect
relay_socks5_connect-opened connect target w e =
    ap (λ o. after (o, w) (λ _. write_all connect_reply >> return target)) e

relay_socks5_connect-unopened :
    (connect : TcpForwardTarget → Outcome ClientError (Unit {0})) (target : TcpForwardTarget)
    (w : Wire) (error : ClientError)
    → connect target ≡ err error
    → relay_socks5_connect connect target w ≡ (err error, w)
unfolding relay_socks5_connect
relay_socks5_connect-unopened connect target w error e =
    ap (λ o. after (o, w) (λ _. write_all connect_reply >> return target)) e

-- The dialer without credentials and the client's server agree: what the dialer writes makes the
-- server return the dialer's target, and what the server writes, once it has opened its stream to
-- that target, makes the dialer succeed; each leaves what follows of its stream. The target is an
-- IP address, or a domain of 1 to 255 bytes that is UTF-8.
pub socks5_connect-handle_socks5_connect :
    (valid_utf8 : Bytes → Bool) (connect : TcpForwardTarget → Outcome ClientError (Unit {0}))
    (h : OwnedProxyHeader) (dialer server : Wire)
    → IsTarget valid_utf8 h.address
    → IsPort h.port
    → connect (target_of h.address h.port) ≡ ok tt
    → (sent : Bytes) × (reply : Bytes) × (socks5_connect h anonymous (before reply dialer)
        ≡ (ok tt, written dialer sent))
      × (handle_socks5_connect valid_utf8 connect (before sent server)
          ≡ (ok (target_of h.address h.port), written server reply))
socks5_connect-handle_socks5_connect valid_utf8 connect h dialer server k p e = (
  dialer_bytes h,
  server_bytes,
  socks5_connect-request valid_utf8 h (before connect_reply dialer) k
      ∙ read_connect_reply-wire (written dialer (dialer_bytes h)),
  handle-request valid_utf8 connect h server k p
      ∙ relay_socks5_connect-opened connect (target_of h.address h.port)
          (written server (5 ∷ 0 ∷ [])) e
      ∙ ap
          (λ (b : Bytes).
            let r : Outcome ClientError TcpForwardTarget × Wire =
              (ok (target_of h.address h.port), record server { output = b }) in
            r)
          (append_assoc server.output (5 ∷ 0 ∷ []) connect_reply),
)

-- Where the server cannot connect its stream to the dialer's target, it returns that error and
-- writes nothing behind the choice of the method; a dialer whose stream ends or is lost there fails
-- with a short reply. The target is as above.
pub socks5_connect-unopened :
    (valid_utf8 : Bytes → Bool) (connect : TcpForwardTarget → Outcome ClientError (Unit {0}))
    (h : OwnedProxyHeader) (dialer server : Wire) (error : ClientError)
    → IsTarget valid_utf8 h.address
    → IsPort h.port
    → connect (target_of h.address h.port) ≡ err error
    → dialer.input ≡ []
    → (sent : Bytes) × (reply : Bytes) × (socks5_connect h anonymous (before reply dialer)
        ≡ (err (Socks5.socks5_short dialer.closing 0), written dialer sent))
      × (handle_socks5_connect valid_utf8 connect (before sent server)
          ≡ (err error, written server reply))
socks5_connect-unopened valid_utf8 connect h dialer server error k p e n = (
  dialer_bytes h,
  5 ∷ 0 ∷ [],
  socks5_connect-request valid_utf8 h dialer k
      ∙ ap
          (λ (b : Bytes).
            read_connect_reply (record (written dialer (dialer_bytes h)) { input = b }))
          n
      ∙ ap
          (λ (b : Bytes).
            let r : Outcome TransportError (Unit {0}) × Wire = (
              err (Socks5.socks5_short dialer.closing 0),
              record (written dialer (dialer_bytes h)) { input = b },
            ) in
            r)
          (sym n),
  handle-request valid_utf8 connect h server k p
      ∙ relay_socks5_connect-unopened connect (target_of h.address h.port)
          (written server (5 ∷ 0 ∷ [])) error e,
)
