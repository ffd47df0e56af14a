-- ===== src/Protocol/Tests.antt =====
-- The wire formats of the protocol crate on concrete frames.
use zuicity.Prelude.{◌≡◌, refl, [], ◌∷◌, ◌++◌, arith, length, replicate, ok, err}
use zuicity.Prelude.Bytes.{Bytes, index, slice, slice_from}
use zuicity.Protocol.Metadata.{encode_runtime_metadata, decode_runtime_metadata, decode_domain}
use zuicity.Protocol.Defs.{
  domain_too_long, tcp, udp, domain, ProxyHeader, encoded_len, network_try_from, require_len,
  authentication_frame_len,
}
use zuicity.Protocol.Header.{encode_to, encode_target_to, decode}
use zuicity.Protocol.Header.Codec.{IsHeader, decode-encode_to, decode-IsDecoded}
use zuicity.Protocol.Datagram.{encode_udp_datagram, decode_udp_datagram}
use zuicity.Protocol.Datagram.Codec.{decode-encode_udp_datagram}
use zuicity.Protocol.Authentication.{AuthenticationRequest}
use zuicity.Protocol.Authentication
use zuicity.Protocol.Authentication.Codec.{decode_authentication-encode_to}

-- `a.io`, port 443
abbrev site : ProxyHeader
site = record { network = udp; address = domain (97 ∷ 46 ∷ 105 ∷ 111 ∷ []); port = 443 }

abbrev site_bytes : Bytes
site_bytes = 3 ∷ 4 ∷ 97 ∷ 46 ∷ 105 ∷ 111 ∷ 1 ∷ 187 ∷ []

abbrev buffer : Bytes
buffer = 6 ∷ []

abbrev long_name : Bytes
long_name = replicate 256 97

abbrev long_site : ProxyHeader
long_site = record { network = tcp; address = domain long_name; port = 80 }

abbrev token : Bytes
token = replicate 32 7

abbrev request : AuthenticationRequest
request = record { uuid = replicate 16 9; token = token }

abbrev request_bytes : Bytes
request_bytes = 0 ∷ 0 ∷ (replicate 16 9 ++ token)

site-IsHeader : IsHeader site
site-IsHeader = record {
  address = (omega arith, (omega arith, (omega arith, (omega arith, tt))));
  port = omega arith;
}

site_decoded : decode (3 ∷ site_bytes ++ (5 ∷ [])) ≡ ok (site, 5 ∷ [])
unfolding decode network_try_from decode_runtime_metadata decode_domain index slice slice_from
    require_len
site_decoded = refl

udp_site_decoded :
    decode_udp_datagram (site_bytes ++ (0 ∷ 2 ∷ 8 ∷ 9 ∷ 5 ∷ [])) ≡ ok (site, 8 ∷ 9 ∷ [], 5 ∷ [])
unfolding decode_udp_datagram decode_runtime_metadata decode_domain index slice slice_from
    require_len
udp_site_decoded = refl

encode_long_site :
    encode_udp_datagram long_site (1 ∷ []) buffer ≡ (err (domain_too_long 256), buffer)
unfolding encode_udp_datagram encode_target_to encode_runtime_metadata
encode_long_site = refl

decode_bytes : Authentication.decode (request_bytes ++ (5 ∷ [])) ≡ ok (request, 5 ∷ [])
unfolding Authentication.decode index slice slice_from require_len
decode_bytes = refl

decode-encode_to_example :
    (wire : Bytes) × (encode_to site (1 ∷ []) ≡ (ok tt, 1 ∷ [] ++ wire))
    × (length wire ≡ encoded_len site)
    × (decode (wire ++ (5 ∷ [])) ≡ ok (site, 5 ∷ []))
decode-encode_to_example = decode-encode_to site (1 ∷ []) (5 ∷ []) site-IsHeader (omega arith)

decode-IsDecoded_example :
    (wire : Bytes) × (encode_to site [] ≡ (ok tt, wire))
    × (3 ∷ site_bytes ++ (5 ∷ []) ≡ wire ++ (5 ∷ []))
    × IsHeader site
decode-IsDecoded_example =
    decode-IsDecoded (3 ∷ site_bytes ++ (5 ∷ [])) site (5 ∷ []) (ground arith) site_decoded

decode-encode_udp_datagram_example :
    (wire : Bytes) × (encode_udp_datagram site (8 ∷ 9 ∷ []) (1 ∷ []) ≡ (ok tt, 1 ∷ [] ++ wire))
    × (decode_udp_datagram (wire ++ (5 ∷ [])) ≡ ok (site, 8 ∷ 9 ∷ [], 5 ∷ []))
decode-encode_udp_datagram_example =
    decode-encode_udp_datagram site (8 ∷ 9 ∷ []) (1 ∷ []) (5 ∷ []) site-IsHeader refl (omega arith)
      (omega arith)

decode_authentication-encode_to_example :
    (wire : Bytes) × (Authentication.encode_to request (1 ∷ []) ≡ 1 ∷ [] ++ wire)
    × (length wire ≡ authentication_frame_len)
    × (Authentication.decode (wire ++ (5 ∷ [])) ≡ ok (request, 5 ∷ []))
decode_authentication-encode_to_example =
    decode_authentication-encode_to request (1 ∷ []) (5 ∷ []) (record { uuid = refl; token = refl })
