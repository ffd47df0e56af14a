-- ===== src/Transport/Tuic/Fragment/Split.antt =====
-- How a payload is cut into TUIC fragments.
use zuicity.Prelude.{
  ℕ, zero, suc, ◌+◌, ◌-◌, ◌*◌, ◌≤◌, ◌<◌, ◌≡◌, refl, sym, ap, ◌∙◌, min, List, [], ◌∷◌, ◌++◌, arith,
  ◌==◌, length, take, drop, take-append-drop, length-drop, take-min, drop-min, drop-drop, Outcome,
  ok, ◌>>=◌,
}
use zuicity.Prelude.Bytes.{Bytes, concat, slice}
use zuicity.Transport.Defs.{TransportError}
use zuicity.Transport.Tuic.Fragment.{
  TuicOutboundUdpPacket, encode_tuic_udp_fragment, encode_loop, div_ceil,
}

-- `n` pieces of `size` bytes, the last ones shorter.
abbrev pub cut : ℕ → ℕ → Bytes → List Bytes
cut size zero bytes = []
cut size (suc n) bytes = take size bytes ∷ cut size n (drop size bytes)

pub length-cut : (size n : ℕ) (bytes : Bytes) → length (cut size n bytes) ≡ n
length-cut size zero bytes = refl
length-cut size (suc n) bytes = ap suc (length-cut size n (drop size bytes))

-- Enough pieces hold all the bytes.
pub concat-cut :
    (size n : ℕ) (bytes : Bytes) → length bytes ≤ n * size → concat (cut size n bytes) ≡ bytes
concat-cut size zero [] h = refl
concat-cut size zero (b ∷ bytes) h = absurd (omega arith)
concat-cut size (suc n) bytes h =
    ap (◌++◌ (take size bytes))
      (concat-cut size n (drop size bytes) (grind (arith, length-drop size bytes)))
    ∙ take-append-drop size bytes

pub div_ceil-zero : (n d : ℕ) → n ≡ 0 → 0 < d → div_ceil n d ≡ 0
div_ceil-zero n d e h = grind arith

pub div_ceil-le : (n d : ℕ) → 0 < d → n ≤ div_ceil n d * d
div_ceil-le n d h = grind arith

-- The fragments of some chunks, from number `i` on.
unfoldable pub encode_chunks :
    TuicOutboundUdpPacket → ℕ → ℕ → List Bytes → Outcome TransportError (List Bytes)
encode_chunks p total i [] = ok []
encode_chunks p total i (c ∷ chunks) = do
  fragment ← encode_tuic_udp_fragment p.header c p.association_id p.packet_id total i (i == 0)
  fragments ← encode_chunks p total (i + 1) chunks
  ok (fragment ∷ fragments)

-- The slice that the loop takes is the next piece, and never out of range.
slice-min :
    (payload : Bytes) (offset budget : ℕ)
    → offset ≤ length payload
    → slice {E = TransportError} payload offset (min (offset + budget) (length payload))
      ≡ ok (take budget (drop offset payload))
unfolding slice
slice-min payload offset budget h = ground (arith, cut_at, length-drop offset payload)
  where
    cut_at :
        take (min (offset + budget) (length payload) - offset) (drop offset payload)
        ≡ take budget (drop offset payload)
    cut_at =
        ap (λ k. take k (drop offset payload))
          (let e : min (offset + budget) (length payload) - offset
                ≡ min budget (length (drop offset payload)) =
              omega (arith, length-drop offset payload) in
            e)
        ∙ take-min budget (drop offset payload)

drop-min_add :
    (payload : Bytes) (offset budget : ℕ)
    → drop (min (offset + budget) (length payload)) payload ≡ drop budget (drop offset payload)
drop-min_add payload offset budget =
    drop-min (offset + budget) payload ∙ sym (drop-drop offset budget payload)

module _ (p : TuicOutboundUdpPacket) (first other total : ℕ) where
  encode_loop-cut :
      (rounds i offset : ℕ)
      → offset ≤ length p.payload
      → 0 < i
      → encode_loop p first other total rounds i offset
        ≡ encode_chunks p total i (cut other rounds (drop offset p.payload))
  unfolding encode_loop encode_chunks
  encode_loop-cut zero i offset h k = refl
  encode_loop-cut (suc rounds) i offset h k = ground (
    arith,
    slice-min p.payload offset other h,
    drop-min_add p.payload offset other,
    encode_loop-cut rounds (i + 1) (min (offset + other) (length p.payload)),
  )

  -- All the rounds, from the first packet.
  pub encode_loop-packet :
      (d : ℕ)
      → encode_loop p first other total (suc d) 0 0
        ≡ encode_chunks p total 0 (take first p.payload ∷ cut other d (drop first p.payload))
  unfolding encode_loop encode_chunks
  encode_loop-packet d = ground (
    arith,
    slice-min p.payload 0 first,
    drop-min_add p.payload 0 first,
    encode_loop-cut d (0 + 1) (min (0 + first) (length p.payload)),
  )
