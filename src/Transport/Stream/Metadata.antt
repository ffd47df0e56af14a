-- ===== src/Transport/Stream/Metadata.antt =====
-- What `read_runtime_target_metadata` takes from a stream.
use zuicity.Prelude.{
  ℕ, suc, ◌+◌, ◌*◌, ◌≡◌, refl, sym, ap, ◌∙◌, subst, [], ◌∷◌, ◌++◌, append-nil, append_assoc, arith,
  length, length-append, length-take, take, get_or, drop_all, inl, inr, ◌⊎◌, Bool, true, false,
  ◌==◌, Outcome, ok,
}
use zuicity.Prelude.Bytes.{Bytes, AreBytes, to_be_u16, take-AreBytes, get_or-lt, AreBytes-front}
use zuicity.Session.{Wire, read_exact, after}
use zuicity.Session.Laws.{before, ReadOff, read_exact-before, read_exact-eq-ok, after-eq-ok}
use zuicity.Protocol.{ProxyAddress, ipv4, ipv6, domain, IsAddress, IsPort}
use zuicity.Protocol.Metadata.RoundTrip.{Fits, metadata_wire}
use zuicity.Protocol.Metadata.Canonical.{split_port}
use zuicity.Transport.Defs.{TransportError}
use zuicity.Transport.Stream.{
  quic_short, read_metadata_rest, read_metadata_domain, read_metadata_after,
  read_runtime_target_metadata,
}

read_metadata_rest-before :
    (encoded xs : Bytes) (n : ℕ) (w : Wire)
    → length xs ≡ n
    → read_metadata_rest encoded n (before xs w) ≡ (ok (encoded ++ xs), w)
read_metadata_rest-before encoded xs n w h =
    ap
      (λ r.
        after r (λ rest v. let o : Outcome TransportError Bytes = ok (encoded ++ rest) in (o, v)))
      (read_exact-before quic_short n xs w h)

-- The metadata that an encoder writes is read whole, and nothing after it.
pub read_runtime_target_metadata-wire :
    (encoded : Bytes) (a : ProxyAddress) (port : ℕ) (w : Wire)
    → IsAddress a
    → read_runtime_target_metadata encoded (before (metadata_wire a port) w)
      ≡ (ok (encoded ++ metadata_wire a port), w)
unfolding read_runtime_target_metadata
read_runtime_target_metadata-wire encoded (ipv4 octets) port w v = ground (
  arith,
  read_metadata_rest-before (encoded ++ 1 ∷ []) (octets ++ to_be_u16 port) 6 w,
  length-append octets (to_be_u16 port),
  append_assoc encoded (1 ∷ []) (octets ++ to_be_u16 port),
)
read_runtime_target_metadata-wire encoded (ipv6 octets) port w v = ground (
  arith,
  read_metadata_rest-before (encoded ++ 4 ∷ []) (octets ++ to_be_u16 port) 18 w,
  length-append octets (to_be_u16 port),
  append_assoc encoded (4 ∷ []) (octets ++ to_be_u16 port),
)
read_runtime_target_metadata-wire encoded (domain name) port w v = ground (
  arith,
  read_metadata_rest-before ((encoded ++ 3 ∷ []) ++ length name ∷ []) (name ++ to_be_u16 port)
      (length name + 2) w,
  length-append name (to_be_u16 port),
  append_assoc encoded (3 ∷ []) (length name ∷ []),
  append_assoc encoded (3 ∷ length name ∷ []) (name ++ to_be_u16 port),
)

read_metadata_rest-eq-ok :
    (encoded e : Bytes) (n : ℕ) (w w' : Wire)
    → read_metadata_rest encoded n w ≡ (ok e, w')
    → (xs : Bytes) × (e ≡ encoded ++ xs) × ReadOff n xs w w'
read_metadata_rest-eq-ok encoded e n w w' h =
    let (xs, v, r, p) = after-eq-ok (read_exact quic_short n w) _ e w' h in
    (
      xs,
      ground (arith, p),
      subst (ReadOff n xs w) (ap (λ (q : Outcome TransportError Bytes × Wire). q.1) p)
          (read_exact-eq-ok quic_short n xs w v r),
    )

-- The bytes `m` of an address and a port were read from the stream `w`.
pub record ReadMetadata (m : Bytes) (w w' : Wire) : Type 0 where
  pub a : ProxyAddress
  pub port : ℕ
  pub address : IsAddress a
  pub bounded : IsPort port
  pub fits : Fits a
  pub spelled : m ≡ metadata_wire a port
  pub left : w ≡ before m w'

-- An address of `n` bytes and a port.
abbrev port_of : ℕ → Bytes → ℕ
port_of n body = get_or body n 0 * 256 + get_or body (suc n) 0

split_all :
    (n : ℕ) (body : Bytes)
    → AreBytes body
    → length body ≡ n + 2
    → (body ≡ take n body ++ to_be_u16 (port_of n body))
      × IsPort (port_of n body)
      × (length (take n body) ≡ n)
split_all n body v h = (
  split_port n body v (omega arith)
      ∙ ap (λ (r : Bytes). take n body ++ (to_be_u16 (port_of n body) ++ r))
          (drop_all (suc (suc n)) body (omega arith))
      ∙ ap (λ (r : Bytes). take n body ++ r) (append-nil (to_be_u16 (port_of n body))),
  omega (arith, get_or-lt body n v, get_or-lt body (suc n) v),
  omega (arith, length-take n body),
)

tagged_ReadMetadata :
    (n : ℕ) (make : Bytes → ProxyAddress) (tag : Bytes) (xs : Bytes) (w w' : Wire)
    → ((octets : Bytes) (port : ℕ)
        → length octets ≡ n
        → metadata_wire (make octets) port ≡ tag ++ (octets ++ to_be_u16 port))
    → ((octets : Bytes)
        → AreBytes octets
        → length octets ≡ n
        → IsAddress (make octets) × Fits (make octets))
    → AreBytes xs
    → ReadOff (n + 2) xs w w'
    → ReadMetadata (tag ++ xs) (before tag w) w'
tagged_ReadMetadata n make tag xs w w' spell valid v r =
    let s = split_all n xs v r.1 in
    let k = valid (take n xs) (take-AreBytes n xs v) s.2 in
    record {
      a = make (take n xs);
      port = port_of n xs;
      address = k.0;
      bounded = s.1;
      fits = k.1;
      spelled = ap (λ (b : Bytes). tag ++ b) s.0 ∙ sym (spell (take n xs) (port_of n xs) s.2);
      left =
          ap (before tag) r.0
          ∙ ap (λ (b : Bytes). record w' { input = b }) (sym (append_assoc tag xs w'.input));
    }

abbrev Tagged : Bytes → Bytes → ℕ → Wire → Wire → Type 0
Tagged encoded e x w w' =
    (x ≡ 1) × (read_metadata_rest encoded 6 w ≡ (ok e, w'))
    ⊎ ((x ≡ 4) × (read_metadata_rest encoded 18 w ≡ (ok e, w'))
        ⊎ (x ≡ 3) × (read_metadata_domain encoded w ≡ (ok e, w')))

tagged :
    (encoded e : Bytes) (x : ℕ) (w w' : Wire) (one four three : Bool)
    → (x == 1) ≡ one
    → (x == 4) ≡ four
    → (x == 3) ≡ three
    → read_metadata_after encoded x w ≡ (ok e, w')
    → Tagged encoded e x w w'
tagged encoded e x w w' true four three p q r h = inl (ground arith, ground (arith, p, h))
tagged encoded e x w w' false true three p q r h = inr (inl (ground arith, ground (arith, p, q, h)))
tagged encoded e x w w' false false true p q r h =
    inr (inr (ground arith, ground (arith, p, q, r, h)))
tagged encoded e x w w' false false false p q r h = absurd (ground (arith, p, q, r, h))

abbrev Took : Bytes → Bytes → Wire → Wire → Type 0
Took encoded e w w' = (m : Bytes) × (e ≡ encoded ++ m) × ReadMetadata m w w'

read_tagged-Took :
    (n : ℕ) (make : Bytes → ProxyAddress) (encoded e tag : Bytes) (w w' : Wire)
    → ((octets : Bytes) (port : ℕ)
        → length octets ≡ n
        → metadata_wire (make octets) port ≡ tag ++ (octets ++ to_be_u16 port))
    → ((octets : Bytes)
        → AreBytes octets
        → length octets ≡ n
        → IsAddress (make octets) × Fits (make octets))
    → AreBytes w.input
    → read_metadata_rest (encoded ++ tag) (n + 2) w ≡ (ok e, w')
    → Took encoded e (before tag w) w'
read_tagged-Took n make encoded e tag w w' spell valid v h =
    let (xs, p, r) = read_metadata_rest-eq-ok (encoded ++ tag) e (n + 2) w w' h in
    let bytes = AreBytes-front xs w'.input (subst (λ (u : Wire). AreBytes u.input) r.0 v) in
    (
      tag ++ xs,
      p ∙ append_assoc encoded tag xs,
      tagged_ReadMetadata n make tag xs w w' spell valid bytes r,
    )

read_domain-Took :
    (encoded e : Bytes) (w w' : Wire)
    → AreBytes w.input
    → read_metadata_domain (encoded ++ 3 ∷ []) w ≡ (ok e, w')
    → Took encoded e (before (3 ∷ []) w) w'
read_domain-Took encoded e w w' v h =
    let (len, u, r, p) = after-eq-ok (read_exact quic_short 1 w) _ e w' h in
    took_length len u (read_exact-eq-ok quic_short 1 len w u r) p
  where
    took_length :
        (len : Bytes) (u : Wire)
        → ReadOff 1 len w u
        → read_metadata_rest ((encoded ++ 3 ∷ []) ++ len) (get_or len 0 0 + 2) u ≡ (ok e, w')
        → Took encoded e (before (3 ∷ []) w) w'
    took_length [] u r q = absurd (omega (arith, r.1))
    took_length (n ∷ a ∷ b) u r q = absurd (omega (arith, r.1))
    took_length (n ∷ []) u r q =
        let bytes = subst (λ (u : Wire). AreBytes u.input) r.0 v in
        rw r.0 (
          read_tagged-Took n domain encoded e (3 ∷ n ∷ []) u w' (λ o port k. rw k refl)
            (λ o a k. (a, omega (arith, k, bytes.0))) bytes.1
            (rw (← append_assoc encoded (3 ∷ []) (n ∷ [])) q))

-- The reader takes the metadata of one address and port, whatever the stream holds.
pub read_runtime_target_metadata-eq-ok :
    (encoded e : Bytes) (w w' : Wire)
    → AreBytes w.input
    → read_runtime_target_metadata encoded w ≡ (ok e, w')
    → Took encoded e w w'
unfolding read_runtime_target_metadata
read_runtime_target_metadata-eq-ok encoded e w w' v h =
    let (tag, u, r, p) = after-eq-ok (read_exact quic_short 1 w) _ e w' h in
    took_tag tag u (read_exact-eq-ok quic_short 1 tag w u r) p
  where
    took_tag :
        (tag : Bytes) (u : Wire)
        → ReadOff 1 tag w u
        → read_metadata_after (encoded ++ tag) (get_or tag 0 0) u ≡ (ok e, w')
        → Took encoded e w w'
    took_tag [] u r q = absurd (omega (arith, r.1))
    took_tag (n ∷ a ∷ b) u r q = absurd (omega (arith, r.1))
    took_tag (x ∷ []) u r q =
        let bytes = (subst (λ (u : Wire). AreBytes u.input) r.0 v).1 in
        rw r.0 (elim (tagged (encoded ++ x ∷ []) e x u w' _ _ _ refl refl refl q) [
          | inl (k, g) ↦ rw k (
              read_tagged-Took 4 ipv4 encoded e (1 ∷ []) u w' (λ o port k. refl)
                (λ o a k. ((k, a), tt)) bytes (rw (← k) g))
          | inr (inl (k, g)) ↦ rw k (
              read_tagged-Took 16 ipv6 encoded e (4 ∷ []) u w' (λ o port k. refl)
                (λ o a k. ((k, a), tt)) bytes (rw (← k) g))
          | inr (inr (k, g)) ↦ rw k (read_domain-Took encoded e u w' bytes (rw (← k) g))
        ])
