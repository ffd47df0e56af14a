-- ===== src/Transport/Tuic/Fragment.antt =====
-- crates/zuicity-transport/src/lib.rs: `encode_tuic_udp_fragment`, `encode_tuic_udp_fragments`,
-- `encode_outbound_tuic_udp_datagrams` and `decode_tuic_udp_fragment`.
pub mod Wire
pub mod Split
pub mod Transfer
pub mod Sound
use zuicity.Prelude.{
  ℕ, zero, suc, ◌+◌, ◌-◌, ◌/◌, min, List, [], ◌∷◌, ◌++◌, Bool, true, false, not, ◌||◌, ◌&&◌, Option,
  none, some, ◌==◌, ltb, leb, if◌then◌else◌, length, get_or, Outcome, ok, err, panic, ◌>>=◌, ◌>>◌,
}
use zuicity.Prelude.Bytes.{Bytes, index, slice, from_be_u16, to_be_u16}
use zuicity.Protocol.{tcp, udp}
use zuicity.Transport.Defs.{
  SocketAddr, OwnedProxyHeader, TransportError, tuic_proxy, packet, datagram,
  unexpected_proxy_network, payload_exceeds_u16, datagram_size_too_small, more_than_255_fragments,
  unsupported_by_peer, truncated_packet_header, unexpected_packet_head, association_id_mismatch,
  fragmented_not_implemented, invalid_fragment_index, non_first_needs_none_address,
  payload_length_mismatch,
}
use zuicity.Transport.Tuic.Target.{
  Resolver, packet_error, tuic_addr_none, encode_tuic_target, tuic_target_encoded_len,
  decode_tuic_udp_target,
}

abbrev pub tuic_version_5 : ℕ
tuic_version_5 = 5

abbrev pub tuic_command_packet : ℕ
tuic_command_packet = 2

abbrev pub tuic_udp_packet_fixed_len : ℕ
tuic_udp_packet_fixed_len = 10

-- The address, or the one byte that stands for none, behind the fixed part.
put_address : Bool → OwnedProxyHeader → Bytes → Outcome TransportError Bytes
put_address true h output = let (done, output') = encode_tuic_target h output in done >> ok output'
put_address false h output = ok (output ++ tuic_addr_none ∷ [])

-- The fixed part of a packet.
abbrev pub packet_head : ℕ → ℕ → ℕ → ℕ → ℕ → Bytes
packet_head association_id packet_id fragment_total fragment_id payload_len =
    tuic_version_5
    ∷ tuic_command_packet
    ∷ (to_be_u16 association_id
        ++ (to_be_u16 packet_id ++ (fragment_total ∷ fragment_id ∷ to_be_u16 payload_len)))

unfoldable pub encode_tuic_udp_fragment :
    OwnedProxyHeader → Bytes → ℕ → ℕ → ℕ → ℕ → Bool → Outcome TransportError Bytes
unfolding put_address
encode_tuic_udp_fragment h payload association_id packet_id fragment_total fragment_id
      include_address =
    if ltb 65535 (length payload) then packet_error payload_exceeds_u16 else do
      output ←
          put_address include_address h
            (packet_head association_id packet_id fragment_total fragment_id (length payload))
      ok (output ++ payload)

-- The packet that is cut: `header`, the ids and the payload.
pub record TuicOutboundUdpPacket : Type 0 where
  pub header : OwnedProxyHeader
  pub payload : Bytes
  pub association_id : ℕ
  pub packet_id : ℕ

-- `for fragment_id in 0..fragment_total`: `rounds` are left, and `first` is the budget of
-- fragment 0.
pub encode_loop :
    TuicOutboundUdpPacket
    → (first other total rounds fragment_id offset : ℕ) → Outcome TransportError (List Bytes)
unfolding slice
encode_loop p first other total zero fragment_id offset = ok []
encode_loop p first other total (suc rounds) fragment_id offset =
    let budget = if fragment_id == 0 then first else other in
    let end = min (offset + budget) (length p.payload) in
    let rest = encode_loop p first other total rounds (fragment_id + 1) end in
    do
      chunk ← slice p.payload offset end
      fragment ←
          encode_tuic_udp_fragment p.header chunk p.association_id p.packet_id total fragment_id
            (fragment_id == 0)
      fragments ← rest
      ok (fragment ∷ fragments)

-- `n.div_ceil(d)`, for 0 < d
abbrev pub div_ceil : ℕ → ℕ → ℕ
div_ceil n d = (n + (d - 1)) / d

-- Behind the checks on the network and the budgets.
pub encode_within : TuicOutboundUdpPacket → ℕ → ℕ → Outcome TransportError (List Bytes)
unfolding encode_loop
encode_within p first other =
    if leb (length p.payload) first
    then (do
      fragment ← encode_tuic_udp_fragment p.header p.payload p.association_id p.packet_id 1 0 true
      ok (fragment ∷ []))
    else let total = 1 + div_ceil (length p.payload - first) other in
      if ltb 255 total
      then packet_error more_than_255_fragments
      else encode_loop p first other total total 0 0

unfoldable pub encode_tuic_udp_fragments :
    TuicOutboundUdpPacket → ℕ → Outcome TransportError (List Bytes)
unfolding encode_within
encode_tuic_udp_fragments p max_datagram_size = elim p.header.network [
  | tcp ↦ err (unexpected_proxy_network tcp)
  | udp ↦ do
    target_len ← tuic_target_encoded_len p.header
    let first = max_datagram_size - (tuic_udp_packet_fixed_len + target_len)
    let other = max_datagram_size - (tuic_udp_packet_fixed_len + 1)
    if first == 0 || other == 0
        then packet_error datagram_size_too_small
        else encode_within p first other
]

-- The size is `None` where the peer does not accept datagrams.
unfoldable pub encode_outbound_tuic_udp_datagrams :
    TuicOutboundUdpPacket → Option ℕ → Outcome TransportError (List Bytes)
encode_outbound_tuic_udp_datagrams p none = err (tuic_proxy datagram unsupported_by_peer)
encode_outbound_tuic_udp_datagrams p (some size) = encode_tuic_udp_fragments p size

pub record TuicUdpFragment : Type 0 where
  pub association_id : ℕ
  pub packet_id : ℕ
  pub fragment_total : ℕ
  pub fragment_id : ℕ
  pub target : Option SocketAddr
  pub payload : Bytes

module _ (net : Resolver) where
  -- The target of a first fragment, `none` behind the none address, and where the payload starts.
  unfoldable pub decode_address : Bytes → ℕ → Outcome TransportError (Option SocketAddr × ℕ)
  decode_address raw fragment_id =
      if fragment_id == 0
      then (do
        (target, offset) ← decode_tuic_udp_target net raw tuic_udp_packet_fixed_len
        ok (some target, offset))
      else if ltb tuic_udp_packet_fixed_len (length raw)
          && (get_or raw tuic_udp_packet_fixed_len 0 == tuic_addr_none)
      then ok (none, tuic_udp_packet_fixed_len + 1)
      else packet_error non_first_needs_none_address

  unfoldable pub decode_tuic_udp_fragment : Bytes → Outcome TransportError TuicUdpFragment
  unfolding index slice
  decode_tuic_udp_fragment raw =
      if ltb (length raw) tuic_udp_packet_fixed_len
      then packet_error truncated_packet_header
      else do
        version ← index raw 0
        command ← index raw 1
        if not (version == tuic_version_5) || not (command == tuic_command_packet)
            then packet_error unexpected_packet_head
            else do
              association_hi ← index raw 2
              association_lo ← index raw 3
              packet_hi ← index raw 4
              packet_lo ← index raw 5
              fragment_total ← index raw 6
              fragment_id ← index raw 7
              if fragment_total == 0 || leb fragment_total fragment_id
                  then packet_error invalid_fragment_index
                  else do
                    len_hi ← index raw 8
                    len_lo ← index raw 9
                    (target, payload_offset) ← decode_address raw fragment_id
                    let end = payload_offset + from_be_u16 len_hi len_lo
                    if not (length raw == end) then packet_error payload_length_mismatch else do
                      payload ← slice raw payload_offset end
                      ok (record {
                        association_id = from_be_u16 association_hi association_lo;
                        packet_id = from_be_u16 packet_hi packet_lo;
                        fragment_total = fragment_total;
                        fragment_id = fragment_id;
                        target = target;
                        payload = payload;
                      })
