-- ===== src/Transport/Stream/NoPanic.antt =====
-- The stream readers of headers do not panic.
use zuicity.Prelude.{
  ℕ, ◌+◌, ◌≡◌, ◌≢◌, if◌then◌else◌, refl, subst, [], ◌∷◌, ◌++◌, arith, length, get_or, Bool, true,
  false, ◌==◌, Outcome, ok, panic, ◌≤◌, err,
}
use zuicity.Prelude.Bytes.{Bytes, AreBytes, AreBytes-back}
use zuicity.Session.{Wire, read_exact, fail}
use zuicity.Session.Laws.{read_exact-eq-ok, read_exact-ne-panic, after-ne-panic}
use zuicity.Protocol.{
  unknown_runtime_addr_type, ProxyAddress, ProtocolError, Network, ProxyHeader, network_try_from,
}
use zuicity.Protocol.Metadata.RoundTrip.{metadata_wire}
use zuicity.Transport.Defs.{protocol}
use zuicity.Transport.Stream.{
  quic_short, read_metadata_rest, read_metadata_domain, read_runtime_target_metadata, from_protocol,
  first_short, read_proxy_header_prefix,
}
use zuicity.Protocol.Header.{decode}
use zuicity.Protocol.Header.Codec.{network_try_from-eq-ok, network_try_from-ne-panic}
use zuicity.Transport.Stream.Metadata.{ReadMetadata, read_runtime_target_metadata-eq-ok}
use zuicity.Transport.Stream.Header.{decode-header_wire, finish_prefix, owned_prefix}

read_metadata_rest-ne-panic :
    (encoded : Bytes) (n : ℕ) (w : Wire) → (read_metadata_rest encoded n w).0 ≢ panic
read_metadata_rest-ne-panic encoded n w =
    after-ne-panic (read_exact quic_short n w) _ (read_exact-ne-panic quic_short n w)
      (λ rest u r. ground arith)

read_metadata_domain-ne-panic :
    (encoded : Bytes) (w : Wire) → (read_metadata_domain encoded w).0 ≢ panic
read_metadata_domain-ne-panic encoded w =
    after-ne-panic (read_exact quic_short 1 w) _ (read_exact-ne-panic quic_short 1 w)
      (λ len u r. read_metadata_rest-ne-panic (encoded ++ len) (get_or len 0 0 + 2) u)

chosen-ne-panic :
    (encoded : Bytes) (x : ℕ) (w : Wire) (one four three : Bool)
    → ((if one
          then read_metadata_rest encoded 6
          else if four
          then read_metadata_rest encoded 18
          else if three
          then read_metadata_domain encoded
          else fail (protocol (unknown_runtime_addr_type x)))
        w).0
      ≢ panic
chosen-ne-panic encoded x w true four three = read_metadata_rest-ne-panic encoded 6 w
chosen-ne-panic encoded x w false true three = read_metadata_rest-ne-panic encoded 18 w
chosen-ne-panic encoded x w false false true = read_metadata_domain-ne-panic encoded w
chosen-ne-panic encoded x w false false false = ground arith

pub read_runtime_target_metadata-ne-panic :
    (encoded : Bytes) (w : Wire) → (read_runtime_target_metadata encoded w).0 ≢ panic
unfolding read_runtime_target_metadata
read_runtime_target_metadata-ne-panic encoded w =
    after-ne-panic (read_exact quic_short 1 w) _ (read_exact-ne-panic quic_short 1 w) (λ tag u r.
      let x = get_or tag 0 0 in chosen-ne-panic (encoded ++ tag) x u (x == 1) (x == 4) (x == 3))

owned_prefix-ne-panic :
    (valid_utf8 : Bytes → Bool) (h : ProxyHeader) (a : ProxyAddress) (w : Wire)
    → h.address ≡ a
    → (owned_prefix valid_utf8 h w).0 ≢ panic
owned_prefix-ne-panic valid_utf8 h (ProxyAddress.ipv4 _) w q = rw q (ground arith)
owned_prefix-ne-panic valid_utf8 h (ProxyAddress.ipv6 _) w q = rw q (ground arith)
owned_prefix-ne-panic valid_utf8 h (ProxyAddress.domain name) w q = rw q (ground arith)

decode-unknown :
    (x : ℕ) (m : Bytes) (e : ProtocolError)
    → 1 ≤ length m
    → network_try_from x ≡ err e
    → decode (x ∷ m) ≡ err e
unfolding decode
decode-unknown x m e k h = ground (arith, h)

length-metadata_wire-pos : (a : ProxyAddress) (port : ℕ) → 1 ≤ length (metadata_wire a port)
length-metadata_wire-pos (ProxyAddress.ipv4 octets) port = omega arith
length-metadata_wire-pos (ProxyAddress.ipv6 octets) port = omega arith
length-metadata_wire-pos (ProxyAddress.domain name) port = omega arith

finish_prefix-ne-panic :
    (valid_utf8 : Bytes → Bool) (x : ℕ) (m : Bytes) (u w : Wire) (o : Outcome ProtocolError Network)
    → network_try_from x ≡ o
    → ReadMetadata m u w
    → (finish_prefix valid_utf8 (from_protocol (decode (x ∷ m)), w)).0 ≢ panic
finish_prefix-ne-panic valid_utf8 x m u w (ok n) q r =
    let h : ProxyHeader = record { network = n; address = r.a; port = r.port } in
    rw
      (
        r.spelled,
        network_try_from-eq-ok x n q,
        decode-header_wire h (record { address = r.address; port = r.bounded }),
      )
      (owned_prefix-ne-panic valid_utf8 h r.a w refl)
finish_prefix-ne-panic valid_utf8 x m u w (err e) q r =
    rw
      (
        r.spelled,
        decode-unknown x (metadata_wire r.a r.port) e (length-metadata_wire-pos r.a r.port) q,
      )
      (ground arith)
finish_prefix-ne-panic valid_utf8 x m u w panic q r = absurd (network_try_from-ne-panic x q)

-- No stream of bytes makes the header reader panic: its assertion that nothing follows the header
-- holds.
pub read_proxy_header_prefix-ne-panic :
    (valid_utf8 : Bytes → Bool) (w : Wire)
    → AreBytes w.input
    → (read_proxy_header_prefix valid_utf8 w).0 ≢ panic
unfolding read_proxy_header_prefix
read_proxy_header_prefix-ne-panic valid_utf8 w v =
    after-ne-panic (read_exact first_short 1 w) _ (read_exact-ne-panic first_short 1 w)
      (λ network u r.
        let first = read_exact-eq-ok first_short 1 network w u r in
        let bytes = subst (λ (z : Wire). AreBytes z.input) first.0 v in
        after-ne-panic (read_runtime_target_metadata network u) _
          (read_runtime_target_metadata-ne-panic network u)
          (λ encoded t r'.
            let (m, spelled, taken) =
              read_runtime_target_metadata-eq-ok network encoded u t
                (AreBytes-back network u.input bytes) r' in
            rw spelled (after_network network m u t first.1 taken)))
  where
    after_network :
        (network m : Bytes) (u t : Wire)
        → length network ≡ 1
        → ReadMetadata m u t
        → (finish_prefix valid_utf8 (from_protocol (decode (network ++ m)), t)).0 ≢ panic
    after_network [] m u t k r = absurd (omega (arith, k))
    after_network (_ ∷ _ ∷ _) m u t k r = absurd (omega (arith, k))
    after_network (x ∷ []) m u t k r =
        finish_prefix-ne-panic valid_utf8 x m u t (network_try_from x) refl r
