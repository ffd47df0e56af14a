-- ===== src/Lib.antt =====
-- zuicity is a proxy over QUIC: a client takes SOCKS5 and HTTP connections, and carries TCP streams
-- and UDP datagrams to a server over the Juicity protocol, or dials through TUIC and other
-- protocols. This library models the parts of its Rust code that carry its own logic, as functions
-- that compute, and proves what makes them correct. The paths below are from the repository's root.
--
-- Prelude: tests and lists over the native numbers, byte slices with Rust's panics out of range,
--   and `Outcome`, what a call does: it returns `Ok`, returns `Err`, or panics.
-- Session: a byte stream in both directions: what the peer sends, how it ends, and what was written.
--   A call on it returns its outcome with the stream that it leaves.
-- Protocol: crates/zuicity-protocol/src/lib.rs. Defs has the wire constants, errors, addresses and
--   headers; Metadata is `encode_runtime_metadata` and `decode_runtime_metadata`, Header is
--   `ProxyHeader`, Datagram the UDP-over-stream frames, Authentication the authentication frame.
--   An encoder is given the buffer and returns its outcome with the buffer that it leaves.
-- Transport: crates/zuicity-transport/src. Tuic is the UDP relay over TUIC of lib.rs: Target the
--   targets on the wire, Fragment the cutting of a payload and the decoder of a fragment, Packet
--   the dialer's decoder, Connect the TCP request, Reassembly the `TuicUdpReassembler`, and
--   EndToEnd the way between them. UdpBatch is udp_plain_batch.rs and udp_plain_direct.rs: grouped
--   datagrams, the suffix owned behind a partial send, and the loop that sends it; Report and Runs
--   are what the kernel's reports call for. DialerLink has the escapes in links, of lib.rs, and
--   Hysteria2 the variable-length integers and the UDP packets of that dialer. Stream is the
--   readers and writers of headers and frames on a QUIC stream, Socks5 the SOCKS5 dialer with its
--   datagrams, Relay the copy loops of a relayed connection (ReadAhead the one with two buffers),
--   Vmess the request and the body of a VMess stream, Vless the requests, the removal of the
--   response header and the UDP frames of VLESS, and Trojan the Trojan request and UDP packets, all
--   of lib.rs.
-- Client: crates/zuicity-client/src/lib.rs. Socks5 is the SOCKS5 server, from the greeting to the
--   reply, and its UDP datagrams; Inbound, Handshake, Associate and Udp put it together with the
--   dialer. The opening of the stream to the target is an argument.
-- Server: crates/zuicity-server/src/lib.rs. Admission is `PreAuthAdmission` and `PreAuthPermit`,
--   whose operations run under one mutex, so a history is a sequence of them.
-- Config: crates/zuicity-config/src/lib.rs. Fwmark is the parser of firewall marks, Userinfo the
--   percent encoding of SOCKS5 credentials, which DialerLink decodes.
-- Dae: crates/zuicity-dae/src/lib.rs, the metrics and lifecycle hooks, and the streams that report to
--   them.
--
-- A machine integer is a natural number, with its wrap-around written out: `received` of the
-- reassembler is taken modulo 2 ^ 8, the counters modulo 2 ^ 64. A string is its UTF-8 bytes, a
-- hash map a function of its key, an instant its nanoseconds. Code that is not in the repository is
-- an argument: the resolver and the UTF-8 tests, the TLS exporter, ciphers and digests, random
-- bytes, the kernel's answers to a send (`Round`) and whether its suffix finds memory, the equality
-- of IP addresses, what the two ends of a copy loop answer, and which future of a `select!` is
-- ready first (`Race`). Where two sides of a connection meet, the input of each is all that the
-- other writes; the order in time is not modelled.
-- The loops are structural, with four exceptions on fuel: `chunks` is given the length of its bytes,
-- and a chunk takes at least one; `encode_loop` is given the number of fragments, one a round.
-- `copy_vmess_to_plain` is given one more than the bytes of its input, and a chunk takes at least
-- two; `poll_on` is given 258, the bytes of a VLESS response header and one turn more.
-- `send_suffix` takes one round of the kernel at a time, and has no outcome where the rounds run out.
-- A shift by whole bytes is a division or a product by 256, with its wrap-around.
--
-- Not modelled: the asynchronous tasks and sockets, TLS, links and key schedules of the dialers,
-- Shadowsocks, segmentation offload, the client's HTTP inbound and accept loops, the command line,
-- and the vendored QUIC library.
pub mod Prelude
pub mod Session
pub mod Client
pub mod Protocol
pub mod Transport
pub mod Server
pub mod Config
pub mod Dae
