-- ===== src/Transport/Tuic/Fragment/Sound.antt =====
-- `decode_tuic_udp_fragment` on any bytes.
use zuicity.Prelude.{
  ℕ, ◌+◌, ◌*◌, ◌<◌, ◌≡◌, ◌≢◌, refl, Option, arith, get_or, take, drop, Outcome, ok, err, panic,
}
use zuicity.Prelude.Bytes.{Bytes, AreBytes, get_or-lt}
use zuicity.Transport.Defs.{SocketAddr, TransportError}
use zuicity.Transport.Tuic.Target.{
  Resolver, decode_target_ipv4, decode_target_ipv6, decode_target_domain, decode_tuic_udp_target,
}
use zuicity.Transport.Tuic.Fragment.{TuicUdpFragment, decode_address, decode_tuic_udp_fragment}
use zuicity.Transport.Tuic.Reassembly.Invariant.{IsFragment}

-- The resolver returns or fails.
abbrev pub IsTotal : Resolver → Type 0
IsTotal net = (name : Bytes) (port : ℕ) → net.to_socket_addrs name port ≢ panic

decode_target_ipv4-ne-panic : (raw : Bytes) → decode_target_ipv4 raw 10 ≢ panic
unfolding decode_target_ipv4
decode_target_ipv4-ne-panic raw = ground arith

decode_target_ipv6-ne-panic : (raw : Bytes) → decode_target_ipv6 raw 10 ≢ panic
unfolding decode_target_ipv6
decode_target_ipv6-ne-panic raw = ground arith

module _ (net : Resolver) (total : IsTotal net) where
  decode_target_domain-ne-panic : (raw : Bytes) → decode_target_domain net raw 10 ≢ panic
  unfolding decode_target_domain
  decode_target_domain-ne-panic raw = ground (
    arith,
    total (take (get_or raw 11 0) (drop 12 raw))
        (get_or raw (12 + get_or raw 11 0) 0 * 256 + get_or raw (13 + get_or raw 11 0) 0),
  )

  decode_address-ne-panic : (raw : Bytes) (i : ℕ) → decode_address net raw i ≢ panic
  unfolding decode_address decode_tuic_udp_target
  decode_address-ne-panic raw i = ground (
    arith,
    decode_target_ipv4-ne-panic raw,
    decode_target_ipv6-ne-panic raw,
    decode_target_domain-ne-panic raw,
  )

  fragment_at-ne-panic :
      (raw : Bytes) (o : Outcome TransportError (Option SocketAddr × ℕ))
      → decode_address net raw (get_or raw 7 0) ≡ o
      → decode_tuic_udp_fragment net raw ≢ panic
  unfolding decode_tuic_udp_fragment
  fragment_at-ne-panic raw (ok r) e = ground arith
  fragment_at-ne-panic raw (err x) e = ground arith
  fragment_at-ne-panic raw panic e = absurd (decode_address-ne-panic raw (get_or raw 7 0) e)

  decoded-IsFragment :
      (raw : Bytes) (f : TuicUdpFragment) (o : Outcome TransportError (Option SocketAddr × ℕ))
      → decode_address net raw (get_or raw 7 0) ≡ o
      → get_or raw 6 0 < 256
      → decode_tuic_udp_fragment net raw ≡ ok f
      → IsFragment f
  unfolding decode_tuic_udp_fragment
  decoded-IsFragment raw f (ok r) e u8 h = ground arith
  decoded-IsFragment raw f (err x) e u8 h = ground arith
  decoded-IsFragment raw f panic e u8 h = ground arith

-- The decoder returned, and what it accepted the reassembler takes with no panic.
abbrev pub IsSound : Outcome TransportError TuicUdpFragment → Type 0
IsSound (ok f) = IsFragment f
IsSound (err e) = Unit {0}
IsSound panic = ⊥

outcome-IsSound :
    (net : Resolver) (total : IsTotal net) (raw : Bytes)
    (o : Outcome TransportError TuicUdpFragment)
    → AreBytes raw
    → decode_tuic_udp_fragment net raw ≡ o
    → IsSound o
outcome-IsSound net total raw (ok f) v e =
    decoded-IsFragment net total raw f _ refl (get_or-lt raw 6 v) e
outcome-IsSound net total raw (err x) v e = tt
outcome-IsSound net total raw panic v e = absurd (fragment_at-ne-panic net total raw _ refl e)

-- On every input of bytes, with a resolver that returns or fails, the decoder does not index or
-- slice out of range, and the fragment that it accepts has a number below its total, which is one
-- byte.
pub decode_tuic_udp_fragment-IsSound :
    (net : Resolver) (raw : Bytes)
    → IsTotal net
    → AreBytes raw
    → IsSound (decode_tuic_udp_fragment net raw)
decode_tuic_udp_fragment-IsSound net raw total v = outcome-IsSound net total raw _ v refl
