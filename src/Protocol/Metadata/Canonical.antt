-- ===== src/Protocol/Metadata/Canonical.antt =====
-- `decode_runtime_metadata` and then `encode_runtime_metadata`.
use zuicity.Prelude.{
  ℕ, suc, ◌+◌, ◌*◌, ◌≤◌, ◌<◌, ◌≡◌, ◌≢◌, sym, ap, ◌∙◌, [], ◌∷◌, ◌++◌, append_assoc, arith, length,
  take, drop, get_or, length-take, split_two, ok, panic, ◌⊎◌, inl, inr,
}
use zuicity.Prelude.Bytes.{
  Bytes, AreBytes, to_be_u16, to_be_u16-from_be_u16, get_or-lt, take-AreBytes,
}
use zuicity.Protocol.Defs.{IsAddress, IsPort, runtime_metadata_len}
use zuicity.Protocol.Metadata.{
  Metadata, decode_ipv4, decode_ipv6, decode_domain, decode_runtime_metadata,
}
use zuicity.Protocol.Metadata.RoundTrip.{Fits, metadata_wire}

-- The metadata `m` was read from the front of `input`.
pub record Reads (input : Bytes) (m : Metadata) : Type 0 where
  pub address : IsAddress m.0
  pub port : IsPort m.1
  pub fits : Fits m.0
  pub consumed : m.2 ≡ runtime_metadata_len m.0
  pub splits : input ≡ metadata_wire m.0 m.1 ++ drop m.2 input

decode_ipv4-Reads :
    (input : Bytes) (m : Metadata)
    → AreBytes input
    → decode_ipv4 (1 ∷ input) ≡ ok m
    → Reads (1 ∷ input) m
unfolding decode_ipv4 runtime_metadata_len
decode_ipv4-Reads (a ∷ b ∷ c ∷ d ∷ hi ∷ lo ∷ r) m v h = ground arith
decode_ipv4-Reads [] m v h = ground arith
decode_ipv4-Reads (a ∷ []) m v h = ground arith
decode_ipv4-Reads (a ∷ b ∷ []) m v h = ground arith
decode_ipv4-Reads (a ∷ b ∷ c ∷ []) m v h = ground arith
decode_ipv4-Reads (a ∷ b ∷ c ∷ d ∷ []) m v h = ground arith
decode_ipv4-Reads (a ∷ b ∷ c ∷ d ∷ e ∷ []) m v h = ground arith

-- The address bytes, the port and the rest, where the address takes `n` bytes of `body`.
pub split_port :
    (n : ℕ) (body : Bytes)
    → AreBytes body
    → n + 2 ≤ length body
    → body
      ≡ take n body
        ++ (to_be_u16 (get_or body n 0 * 256 + get_or body (suc n) 0) ++ drop (suc (suc n)) body)
split_port n body v h =
    split_two n body 0 h
    ∙ ap (λ (port : Bytes). take n body ++ (port ++ drop (suc (suc n)) body))
        (sym (to_be_u16-from_be_u16 _ _ (get_or-lt body n v) (get_or-lt body (suc n) v)))

decode_ipv6-Reads :
    (body : Bytes) (m : Metadata)
    → AreBytes body
    → decode_ipv6 (4 ∷ body) ≡ ok m
    → Reads (4 ∷ body) m
unfolding decode_ipv6 runtime_metadata_len
decode_ipv6-Reads body m v h = ground (
  arith,
  split_port 16 body v,
  append_assoc (take 16 body) (to_be_u16 (get_or body 16 0 * 256 + get_or body 17 0))
      (drop 18 body),
  length-take 16 body,
  take-AreBytes 16 body v,
  get_or-lt body 16 v,
  get_or-lt body 17 v,
)

decode_domain-Reads :
    (n : ℕ) (body : Bytes) (m : Metadata)
    → n < 256
    → AreBytes body
    → decode_domain (3 ∷ n ∷ body) ≡ ok m
    → Reads (3 ∷ n ∷ body) m
unfolding decode_domain runtime_metadata_len
decode_domain-Reads n body m k v h = ground (
  arith,
  split_port n body v,
  append_assoc (take n body) (to_be_u16 (get_or body n 0 * 256 + get_or body (suc n) 0))
      (drop (suc (suc n)) body),
  length-take n body,
  take-AreBytes n body v,
  get_or-lt body n v,
  get_or-lt body (suc n) v,
)

decode_domain-nil-ne-ok : (m : Metadata) → decode_domain (3 ∷ []) ≢ ok m
unfolding decode_domain
decode_domain-nil-ne-ok m = ground arith

decode_domain-cons-Reads :
    (body : Bytes) (m : Metadata)
    → AreBytes body
    → decode_domain (3 ∷ body) ≡ ok m
    → Reads (3 ∷ body) m
decode_domain-cons-Reads [] m v h = absurd (decode_domain-nil-ne-ok m h)
decode_domain-cons-Reads (n ∷ body) m v h = decode_domain-Reads n body m v.0 v.1 h

abbrev Tagged : ℕ → Bytes → Metadata → Type 0
Tagged x body m =
    (x ≡ 1) × (decode_ipv4 (1 ∷ body) ≡ ok m)
    ⊎ ((x ≡ 4) × (decode_ipv6 (4 ∷ body) ≡ ok m) ⊎ (x ≡ 3) × (decode_domain (3 ∷ body) ≡ ok m))

-- The tag byte names the decoder that accepted the input.
tagged :
    (x : ℕ) (body : Bytes) (m : Metadata)
    → decode_runtime_metadata (x ∷ body) ≡ ok m
    → Tagged x body m
unfolding decode_runtime_metadata
tagged x body m h = ground arith

decode_runtime_metadata-nil : (m : Metadata) → decode_runtime_metadata [] ≢ ok m
unfolding decode_runtime_metadata
decode_runtime_metadata-nil m = ground arith

pub decode_runtime_metadata-Reads :
    (input : Bytes) (m : Metadata)
    → AreBytes input
    → decode_runtime_metadata input ≡ ok m
    → Reads input m
decode_runtime_metadata-Reads [] m v h = absurd (decode_runtime_metadata-nil m h)
decode_runtime_metadata-Reads (x ∷ body) m v h = elim (tagged x body m h) [
  | inl (e, g) ↦ rw e (decode_ipv4-Reads body m v.1 g)
  | inr (inl (e, g)) ↦ rw e (decode_ipv6-Reads body m v.1 g)
  | inr (inr (e, g)) ↦ rw e (decode_domain-cons-Reads body m v.1 g)
]

-- No input makes the decoder index or slice out of range.
decode_ipv4-ne-panic : (input : Bytes) → decode_ipv4 input ≢ panic
unfolding decode_ipv4
decode_ipv4-ne-panic input = ground arith

decode_ipv6-ne-panic : (input : Bytes) → decode_ipv6 input ≢ panic
unfolding decode_ipv6
decode_ipv6-ne-panic input = ground arith

decode_domain-ne-panic : (input : Bytes) → decode_domain input ≢ panic
unfolding decode_domain
decode_domain-ne-panic input = ground arith

pub decode_runtime_metadata-ne-panic : (input : Bytes) → decode_runtime_metadata input ≢ panic
unfolding decode_runtime_metadata
decode_runtime_metadata-ne-panic input =
    ground
      (arith, decode_ipv4-ne-panic input, decode_ipv6-ne-panic input, decode_domain-ne-panic input)

-- The decoder consumes no more than it was given.
decode_ipv4-consumed :
    (input : Bytes) (m : Metadata) → decode_ipv4 input ≡ ok m → m.2 ≤ length input
unfolding decode_ipv4
decode_ipv4-consumed input m h = ground arith

decode_ipv6-consumed :
    (input : Bytes) (m : Metadata) → decode_ipv6 input ≡ ok m → m.2 ≤ length input
unfolding decode_ipv6
decode_ipv6-consumed input m h = ground arith

decode_domain-consumed :
    (input : Bytes) (m : Metadata) → decode_domain input ≡ ok m → m.2 ≤ length input
unfolding decode_domain
decode_domain-consumed input m h = ground arith

pub decode_runtime_metadata-consumed :
    (input : Bytes) (m : Metadata) → decode_runtime_metadata input ≡ ok m → m.2 ≤ length input
unfolding decode_runtime_metadata
decode_runtime_metadata-consumed input m h = ground (
  arith,
  decode_ipv4-consumed input m,
  decode_ipv6-consumed input m,
  decode_domain-consumed input m,
)
