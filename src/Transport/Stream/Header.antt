-- ===== src/Transport/Stream/Header.antt =====
-- The stream reader of a proxy header against the decoder of the protocol crate.
use zuicity.Prelude.{
  ◌≡◌, refl, sym, ap, ◌∙◌, subst, [], ◌∷◌, ◌++◌, append-nil, append_assoc, Bool, arith, Outcome, ok,
  err, panic,
}
use zuicity.Prelude.Bytes.{Bytes, AreBytes, AreBytes-front, AreBytes-back}
use zuicity.Session.{Wire, after, return, read_exact}
use zuicity.Session.Laws.{before, read_exact-eq-ok, after-eq-ok}
use zuicity.Protocol.{ProtocolError, ProxyHeader, network_as_u8}
use zuicity.Protocol.Metadata.RoundTrip.{Fits}
use zuicity.Protocol.Header.{decode}
use zuicity.Protocol.Header.Codec.{IsHeader, header_wire, encode_to-wire, decode-wire, decode-eq-ok}
use zuicity.Transport.Defs.{OwnedProxyHeader, TransportError}
use zuicity.Transport.Stream.{
  from_protocol, first_short, as_borrowed, borrowed_address, assert_empty, owned_address,
  from_borrowed, read_runtime_target_metadata, read_proxy_header_prefix, write_proxy_header,
}
use zuicity.Transport.Stream.Metadata.{
  read_runtime_target_metadata-wire, read_runtime_target_metadata-eq-ok,
}

pub decode-header_wire : (h : ProxyHeader) → IsHeader h → decode (header_wire h) ≡ ok (h, [])
decode-header_wire h v = ap decode (sym (append-nil (header_wire h))) ∙ decode-wire h [] v

-- What the reader makes of a header that it decoded.
abbrev pub owned_prefix :
    (Bytes → Bool) → ProxyHeader → Wire → Outcome TransportError (OwnedProxyHeader × Bytes) × Wire
owned_prefix valid_utf8 h w = after (from_borrowed valid_utf8 h, w) (λ owned. return (owned, []))

abbrev pub finish_prefix :
    (Bytes → Bool)
    → Outcome TransportError (ProxyHeader × Bytes) × Wire
    → Outcome TransportError (OwnedProxyHeader × Bytes) × Wire
finish_prefix valid_utf8 r = after r (λ (header, rest).
    λ w. after (assert_empty rest, w) (λ _. λ w. owned_prefix valid_utf8 header w))

read_proxy_header_prefix-wire :
    (valid_utf8 : Bytes → Bool) (h : ProxyHeader) (w : Wire)
    → IsHeader h
    → read_proxy_header_prefix valid_utf8 (before (header_wire h) w) ≡ owned_prefix valid_utf8 h w
unfolding read_proxy_header_prefix
read_proxy_header_prefix-wire valid_utf8 h w v =
    ap (λ r. after r (λ encoded. λ u. finish_prefix valid_utf8 (from_protocol (decode encoded), u)))
      (read_runtime_target_metadata-wire (network_as_u8 h.network ∷ []) h.address h.port w
        v.address)
    ∙ ap (λ o. finish_prefix valid_utf8 (from_protocol o, w)) (decode-header_wire h v)

-- Where the protocol's decoder accepts what the stream holds, the stream reader returns the same
-- header, or refuses its domain as `from_borrowed` does, and leaves the same rest in the stream.
pub read_proxy_header_prefix-decode :
    (valid_utf8 : Bytes → Bool) (w : Wire) (h : ProxyHeader) (rest : Bytes)
    → AreBytes w.input
    → decode w.input ≡ ok (h, rest)
    → read_proxy_header_prefix valid_utf8 w ≡ owned_prefix valid_utf8 h (record w { input = rest })
read_proxy_header_prefix-decode valid_utf8 w h rest v e =
    let d = decode-eq-ok w.input h rest v e in
    ap (λ (b : Bytes). read_proxy_header_prefix valid_utf8 (record w { input = b })) d.2
    ∙ read_proxy_header_prefix-wire valid_utf8 h (record w { input = rest }) d.0

-- A header that fits, with a domain that is UTF-8, is written on one stream and read from the
-- other, with nothing lost of what follows.
pub read-write_proxy_header :
    (valid_utf8 : Bytes → Bool) (h : OwnedProxyHeader) (sender receiver : Wire)
    → IsHeader (as_borrowed h)
    → Fits (borrowed_address h.address)
    → owned_address valid_utf8 (borrowed_address h.address) ≡ ok h.address
    → (wire : Bytes) × (write_proxy_header h sender
        ≡ (ok tt, record sender { output = sender.output ++ wire }))
      × (read_proxy_header_prefix valid_utf8 (before wire receiver) ≡ (ok (h, []), receiver))
unfolding write_proxy_header
read-write_proxy_header valid_utf8 h sender receiver v f u = (
  header_wire (as_borrowed h),
  ground (arith, encode_to-wire (as_borrowed h) [] f),
  read_proxy_header_prefix-wire valid_utf8 (as_borrowed h) receiver v ∙ ground (arith, u),
)

finish_prefix-eq-ok :
    (valid_utf8 : Bytes → Bool) (encoded extra : Bytes) (owned : OwnedProxyHeader) (u w : Wire)
    (o : Outcome ProtocolError (ProxyHeader × Bytes))
    → decode encoded ≡ o
    → finish_prefix valid_utf8 (from_protocol o, u) ≡ (ok (owned, extra), w)
    → (h : ProxyHeader) × (decode encoded ≡ ok (h, []))
      × (owned_prefix valid_utf8 h u ≡ (ok (owned, extra), w))
finish_prefix-eq-ok valid_utf8 encoded extra owned u w (ok (h, [])) q e = (h, q, e)
finish_prefix-eq-ok valid_utf8 encoded extra owned u w (ok (h, _ ∷ _)) q e =
    absurd (ground (arith, e))
finish_prefix-eq-ok valid_utf8 encoded extra owned u w (err _) q e = absurd (ground (arith, e))
finish_prefix-eq-ok valid_utf8 encoded extra owned u w panic q e = absurd (ground (arith, e))

owned_prefix-eq-ok :
    (valid_utf8 : Bytes → Bool) (h : ProxyHeader) (owned : OwnedProxyHeader) (extra : Bytes)
    (u w : Wire) (o : Outcome TransportError OwnedProxyHeader)
    → from_borrowed valid_utf8 h ≡ o
    → after {B = OwnedProxyHeader × Bytes} (o, u) (λ owned. return (owned, []))
      ≡ (ok (owned, extra), w)
    → (from_borrowed valid_utf8 h ≡ ok owned) × (u ≡ w)
owned_prefix-eq-ok valid_utf8 h owned extra u w (ok o) q e =
    (ground (arith, q, e), ground (arith, e))
owned_prefix-eq-ok valid_utf8 h owned extra u w (err _) q e = absurd (ground (arith, e))
owned_prefix-eq-ok valid_utf8 h owned extra u w panic q e = absurd (ground (arith, e))

-- A header that the stream reader returns is the one that the protocol's decoder finds in what the
-- stream held, and what is left in the stream is the decoder's rest.
pub read_proxy_header_prefix-eq-ok :
    (valid_utf8 : Bytes → Bool) (w w' : Wire) (owned : OwnedProxyHeader) (extra : Bytes)
    → AreBytes w.input
    → read_proxy_header_prefix valid_utf8 w ≡ (ok (owned, extra), w')
    → (h : ProxyHeader) × (decode w.input ≡ ok (h, w'.input))
      × (from_borrowed valid_utf8 h ≡ ok owned)
unfolding read_proxy_header_prefix
read_proxy_header_prefix-eq-ok valid_utf8 w w' owned extra v e =
    let (network, u, r, p) = after-eq-ok (read_exact first_short 1 w) _ (owned, extra) w' e in
    let (encoded, t, r', p') =
      after-eq-ok (read_runtime_target_metadata network u) _ (owned, extra) w' p in
    let (h, d, q) =
      finish_prefix-eq-ok valid_utf8 encoded extra owned t w' (decode encoded) refl p' in
    let first = read_exact-eq-ok first_short 1 network w u r in
    let bytes = subst (λ (z : Wire). AreBytes z.input) first.0 v in
    let (m, spelled, taken) =
      read_runtime_target_metadata-eq-ok network encoded u t (AreBytes-back network u.input bytes)
        r' in
    let whole =
      ap (λ (z : Wire). z.input) first.0
      ∙ ap (λ (z : Wire). network ++ z.input) taken.left
      ∙ sym (append_assoc network m t.input)
      ∙ ap (λ (b : Bytes). b ++ t.input) (sym spelled) in
    let front = AreBytes-front encoded t.input (subst AreBytes whole v) in
    let k = decode-eq-ok encoded h [] front d in
    let done =
      owned_prefix-eq-ok valid_utf8 h owned extra t w' (from_borrowed valid_utf8 h) refl q in
    (
      h,
      ap decode (whole ∙ ap (λ (b : Bytes). b ++ t.input) (k.2 ∙ append-nil (header_wire h)))
          ∙ decode-wire h t.input k.0
          ∙ ap
              (λ (z : Wire).
                let o : Outcome ProtocolError (ProxyHeader × Bytes) = ok (h, z.input) in o)
              done.1,
      done.0,
    )
