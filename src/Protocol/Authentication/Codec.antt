-- ===== src/Protocol/Authentication/Codec.antt =====
-- Theorems on `AuthenticationRequest::encode_to` and `decode`.
use zuicity.Prelude.{
  ℕ, ◌+◌, ◌≤◌, ◌<◌, ◌≡◌, ◌≢◌, inl, inr, ltb, ltb→lt, ◌==◌, not, if◌then◌else◌, Bool-cases, refl,
  sym, ap, ◌∙◌, [], ◌∷◌, ◌++◌, append_assoc, arith, length, take, drop, get_or, take-append,
  drop-append, length-append, length-take, length-drop, take-append-drop, drop-drop, Outcome, ok,
  err,
}
use zuicity.Prelude.Bytes.{Bytes}
use zuicity.Protocol.Defs.{
  ProtocolError, truncated, unexpected_version, unexpected_command_type, authentication_frame_len,
}
use zuicity.Protocol.Authentication.{AuthenticationRequest, encode_to, decode}

-- What the Rust types guarantee of a request.
pub record IsRequest (r : AuthenticationRequest) : Type 0 where
  pub uuid : length r.uuid ≡ 16
  pub token : length r.token ≡ 32

-- A request is appended in 50 bytes, and read back with exactly the bytes that follow it.
pub decode_authentication-encode_to :
    (r : AuthenticationRequest) (dst rest : Bytes)
    → IsRequest r
    → (wire : Bytes) × (encode_to r dst ≡ dst ++ wire)
      × (length wire ≡ authentication_frame_len)
      × (decode (wire ++ rest) ≡ ok (r, rest))
unfolding encode_to decode
decode_authentication-encode_to r dst rest v = (
  0 ∷ 0 ∷ (r.uuid ++ r.token),
  refl,
  omega (arith, length-append r.uuid r.token),
  ground (
    arith,
    append_assoc r.uuid r.token rest,
    length-append r.uuid (r.token ++ rest),
    length-append r.token rest,
    take-append 16 r.uuid (r.token ++ rest),
    drop-append 16 r.uuid (r.token ++ rest),
    take-append 32 r.token rest,
    drop-append 48 (r.uuid ++ r.token) rest,
    length-append r.uuid r.token,
  ),
)

-- A slice of a long list has the slice's length.
length-take-drop : (n m : ℕ) (xs : Bytes) → n + m ≤ length xs → length (take m (drop n xs)) ≡ m
length-take-drop n m xs h = omega (arith, length-take m (drop n xs), length-drop n xs)

-- The slices of the decoder are in range behind its length test.
decode-sliced :
    (input : Bytes)
    → decode input ≡ (
        if ltb (length input) 50
        then err (truncated 50 (length input))
        else if not (get_or input 0 0 == 0)
        then err (unexpected_version (get_or input 0 0))
        else if not (get_or input 1 0 == 0)
        then err (unexpected_command_type (get_or input 1 0))
        else ok (
          record { uuid = take 16 (drop 2 input); token = take 32 (drop 18 input) },
          drop 50 input,
        ))
unfolding decode
decode-sliced input = ground arith

decode-branches :
    (input : Bytes)
    → (length input < 50 → decode input ≡ err (truncated 50 (length input)))
      × (50 ≤ length input
          → get_or input 0 0 ≢ 0
          → decode input ≡ err (unexpected_version (get_or input 0 0)))
      × (50 ≤ length input
          → get_or input 0 0 ≡ 0
          → get_or input 1 0 ≢ 0
          → decode input ≡ err (unexpected_command_type (get_or input 1 0)))
      × (50 ≤ length input
          → get_or input 0 0 ≡ 0
          → get_or input 1 0 ≡ 0
          → decode input
            ≡ ok (
              record { uuid = take 16 (drop 2 input); token = take 32 (drop 18 input) },
              drop 50 input,
            ))
decode-branches input = (
  λ h. ground (arith, decode-sliced input),
  λ h v. ground (arith, decode-sliced input),
  λ h v c. ground (arith, decode-sliced input),
  λ h v c. ground (arith, decode-sliced input),
)

-- The fields that a successful decoding has read.
record Fields (input : Bytes) (r : AuthenticationRequest) (rest : Bytes) : Type 0 where
  long : 50 ≤ length input
  version : get_or input 0 0 ≡ 0
  command : get_or input 1 0 ≡ 0
  uuid : r.uuid ≡ take 16 (drop 2 input)
  token : r.token ≡ take 32 (drop 18 input)
  rest_is : rest ≡ drop 50 input

Fields-of_eq :
    (input : Bytes) (r : AuthenticationRequest) (rest : Bytes)
    → 50 ≤ length input
    → get_or input 0 0 ≡ 0
    → get_or input 1 0 ≡ 0
    → ◌≡◌ {A = Outcome ProtocolError (AuthenticationRequest × Bytes)}
        (ok (
          record { uuid = take 16 (drop 2 input); token = take 32 (drop 18 input) },
          drop 50 input,
        ))
        (ok (r, rest))
    → Fields input r rest
Fields-of_eq input r rest h v c e = record {
  long = h;
  version = v;
  command = c;
  uuid = ground arith;
  token = ground arith;
  rest_is = ground arith;
}

decode-Fields :
    (input : Bytes) (r : AuthenticationRequest) (rest : Bytes)
    → decode input ≡ ok (r, rest)
    → Fields input r rest
decode-Fields input r rest e = elim (Bool-cases (ltb (length input) 50)) [
  | inl short ↦ cc ((decode-branches input).0 (ltb→lt _ _ short))
  | inr long ↦ elim (Bool-cases (get_or input 0 0 == 0)) [
    | inr foreign ↦ cc ((decode-branches input).1 (ground arith) (ground arith))
    | inl version ↦ elim (Bool-cases (get_or input 1 0 == 0)) [
      | inr foreign ↦ cc ((decode-branches input).2 (ground arith) (ground arith) (ground arith))
      | inl command ↦
          Fields-of_eq input r rest (ground arith) (ground arith) (ground arith)
            (sym ((decode-branches input).3 (ground arith) (ground arith) (ground arith)) ∙ e)
    ]
  ]
]

-- A body of at least 48 bytes is the UUID, the token and the rest.
split_body : (body : Bytes) → take 16 body ++ (take 32 (drop 16 body) ++ drop 48 body) ≡ body
split_body body =
    ap (λ (t : Bytes). take 16 body ++ (take 32 (drop 16 body) ++ t)) (sym (drop-drop 16 32 body))
    ∙ ap (◌++◌ (take 16 body)) (take-append-drop 32 (drop 16 body))
    ∙ take-append-drop 16 body

Fields-IsDecoded :
    (input : Bytes) (r : AuthenticationRequest) (rest : Bytes)
    → Fields input r rest
    → IsRequest r × (input ≡ encode_to r [] ++ rest)
unfolding encode_to
Fields-IsDecoded [] r rest f = absurd (omega (arith, f.long))
Fields-IsDecoded (version ∷ []) r rest f = absurd (omega (arith, f.long))
Fields-IsDecoded (version ∷ command ∷ body) r rest f = (
  record {
    uuid = rw f.uuid (length-take-drop 0 16 body (omega (arith, f.long)));
    token = rw f.token (length-take-drop 16 32 body (omega (arith, f.long)));
  },
  ground
      (arith, split_body body, append_assoc (take 16 body) (take 32 (drop 16 body)) (drop 48 body)),
)

-- Whatever the decoder accepts is the 50-byte encoding of the request it returns, followed by the
-- bytes it returns.
pub decode_authentication-IsDecoded :
    (input : Bytes) (r : AuthenticationRequest) (rest : Bytes)
    → decode input ≡ ok (r, rest)
    → IsRequest r × (input ≡ encode_to r [] ++ rest)
decode_authentication-IsDecoded input r rest e =
    Fields-IsDecoded input r rest (decode-Fields input r rest e)
