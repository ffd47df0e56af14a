-- ===== src/Transport/Vmess/Tests.antt =====
-- VMess streams with a cipher that only adds a tag of zeros.
use zuicity.Prelude.{
  ℕ, suc, zero, ◌-◌, ◌%◌, ◌≡◌, refl, ap, List, [], ◌∷◌, ◌++◌, map, arith, length, length-append,
  take, take-append, replicate, some, Outcome, ok,
}
use zuicity.Prelude.Bytes.{Bytes, concat}
use zuicity.Session.{Wire, finished}
use zuicity.Session.Laws.{before}
use zuicity.Transport.Defs.{TransportError}
use zuicity.Transport.Relay.{bytes}
use zuicity.Transport.Vmess.{
  Aead, Xof, Random, VmessBodyContext, fresh, copy_plain_to_vmess, copy_vmess_to_plain,
  write_vmess_udp_packet_chunk, read_vmess_udp_packet_chunk,
}
use zuicity.Transport.Vmess.Chunk.{Fills}
use zuicity.Transport.Vmess.Body.{
  written, copy_vmess_to_plain-copy_plain_to_vmess, read-write_vmess_udp_packet_chunk,
}
use zuicity.Transport.Vmess.Returns.{copy_vmess_to_plain-returns}

length-replicate : (n x : ℕ) → length (replicate n x) ≡ n
length-replicate zero x = refl
length-replicate (suc n) x = ap suc (length-replicate n x)

abbrev tag : Bytes
tag = replicate 16 0

abbrev plain : Aead
plain = record {
  encrypt = λ nonce text. some (text ++ tag);
  decrypt = λ nonce sealed. some (take (length sealed - 16) sealed);
  seals = λ nonce text h. (
    text ++ tag,
    refl,
    omega (arith, length-append text tag),
    ap some
        (take-append (length (text ++ tag) - 16) text tag (omega (arith, length-append text tag))),
  );
}

abbrev counting : Xof
counting = record { byte = λ i. i % 256; bounded = λ i. omega arith }

abbrev sevens : Random
sevens n k = ok (replicate k 7)

sevens-Fills : (i : ℕ) → Fills (sevens i)
sevens-Fills i k = (replicate k 7, refl, length-replicate k 7)

abbrev stream : Bytes → Wire
stream text = record { input = text; closing = finished; output = [] }

abbrev start : VmessBodyContext
start = fresh (replicate 16 3)

abbrev payloads : List Bytes
payloads = (1 ∷ 2 ∷ 3 ∷ []) ∷ (4 ∷ []) ∷ []

copy_vmess_to_plain-copy_plain_to_vmess_example :
    (sent : Bytes) × (copy_plain_to_vmess plain counting sevens 0
        (map bytes payloads)
        start
        (stream [])
      ≡ (ok tt, written (stream []) sent))
    × (copy_vmess_to_plain plain counting start (before sent (stream (9 ∷ [])))
        ≡ some (ok tt, written (stream (9 ∷ [])) (concat payloads)))
copy_vmess_to_plain-copy_plain_to_vmess_example =
    copy_vmess_to_plain-copy_plain_to_vmess plain counting sevens payloads start (stream [])
      (stream (9 ∷ [])) sevens-Fills (omega arith, omega arith, (omega arith, omega arith, tt))

read-write_vmess_udp_packet_chunk_example :
    (sent : Bytes) × (d : VmessBodyContext) × (write_vmess_udp_packet_chunk plain counting
        (sevens 0)
        start
        (1 ∷ 2 ∷ [])
        (stream [])
      ≡ (ok d, written (stream []) sent))
    × (read_vmess_udp_packet_chunk plain counting start (before sent (stream []))
        ≡ (ok (1 ∷ 2 ∷ [], d), stream []))
read-write_vmess_udp_packet_chunk_example =
    read-write_vmess_udp_packet_chunk plain counting sevens (1 ∷ 2 ∷ []) start (stream [])
      (stream []) (sevens-Fills 0) (omega arith) (omega arith)

copy_vmess_to_plain-returns_example :
    (x : Outcome TransportError (Unit {0}) × Wire) × (copy_vmess_to_plain plain counting start
        (stream (1 ∷ 2 ∷ 3 ∷ []))
      ≡ some x)
copy_vmess_to_plain-returns_example =
    copy_vmess_to_plain-returns plain counting start (stream (1 ∷ 2 ∷ 3 ∷ []))
