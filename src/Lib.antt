-- ===== src/Lib.antt =====
-- hydr is a proxy: a client speaks SOCKS5 to local programs and carries their streams and datagrams
-- over one authenticated tunnel, by QUIC or by WebSocket, to a server that connects on their behalf.
--
-- The parts and where they are modelled:
--   crates/hydr-core/src/varint.rs       Varint      integers of 62 bits
--   crates/hydr-core/src/address.rs      Address     targets of streams and datagrams
--   crates/hydr-core/src/frame.rs        Frame       frames of the WebSocket tunnel
--   crates/hydr-core/src/message.rs      Message     control messages, the cursor `Reader`, the proof
--   crates/hydr-core/src/obfuscation.rs  Replay, Obfuscator   replay filter and packet obfuscation
--   crates/hydr-core/src/metrics.rs      Metrics     counters and their text for Prometheus
--   crates/hydr-core/src/error.rs        Base.Results   errors and results
--   crates/hydr-server/src/lib.rs        Nonce, Server  authentication, rate limit, permits; Server.Serve:
--                                        tunnels, streams and datagrams, the next hop; Server.Listen: the QUIC
--                                        listener; Server.Reload: its certificate, from `run_quic` to the reload
--   crates/hydr-server/src/cli.rs, main.rs   Settings, Settings.ServerFile   the settings and what `main` and
--                                        `run` make of them
--   crates/hydr-server/src/metrics_endpoint.rs   Metrics.Endpoint   the answer to a connection
--   crates/hydr-server/src/udp.rs        Udp         UDP sessions
--   crates/hydr-transport/src/quic.rs    Quic        messages on a stream, handshakes, streams
--   crates/hydr-transport/src/ws.rs      Ws          flow control, obfuscation of frames; Ws.Session, Ws.Dispatch
--                                        and Ws.Run: the state, `handle_frame` and `run`; Ws.Writer: `writer`;
--                                        Ws.Handle: `WsHandle` and `WsTunnel`; Ws.Pump and Ws.HalfClosed: the
--                                        tasks of a stream and their window
--   crates/hydr-transport/src/lib.rs     Tunnel      the choice between the transports; Tunnel.Accepted: the
--                                        answer to a stream; Quic.Events: `next_event` over QUIC
--   crates/hydr-transport/src/tls.rs     Fingerprint   printing and reading of certificate fingerprints;
--                                        Fingerprint.Verify: the client's verification; Certs: the files of a
--                                        certificate and its key
--   crates/hydr-cc/src/lib.rs            Cc          congestion control
--   crates/hydr-client/src/socks5.rs     Socks       the SOCKS5 side of the client
--   crates/hydr-client/src/lib.rs        Client      tunnel and reconnection; Client.Turns: its steps, with
--                                        other tasks between them; Client.Conn: local programs
--   crates/hydr-client/src/udp_relay.rs  Client.Relay  UDP associations
--   crates/hydr-client/src/cli.rs, main.rs   Settings, Settings.ClientFile   the settings and what `main` makes of
--                                        them
--
-- How they interact: Quic reads and writes the messages of Message, each behind a number of Varint;
-- Message uses Address; the handshake calls `validate` of Server, which asks Nonce whether a nonce is
-- fresh; Obfuscator asks Replay whether a packet is; Server, Udp and Obfuscator count in Metrics. The
-- loop of Ws takes what the obfuscators and Frame give and hands the bodies to Message; Client and
-- Server.Serve use Tunnel, whose record `Transports` stands for quic.rs and ws.rs. Server.Listen puts the rate limit,
-- the handshake of Quic and the handling of a tunnel together; Server.Reload loads by Certs and compares by
-- Fingerprint.Verify; the passwords of Settings go to Server and Client.
--
-- How code becomes definitions: a Rust function has its own name, a method takes its object first and
-- returns the changed object with its result. A byte string is a list of numbers below 256, a text the
-- list of its UTF-8 bytes, a sum on u64 is taken modulo 2 ^ 64
-- (but not the window counters of Ws). `Result` has a third outcome for a
-- panic of an index or a slice. `Instant::now` is an argument in nanoseconds. A mutex makes what is
-- done under it one step. Hash maps and sets are lists without repeated keys. Loops are recursion on
-- the list that they consume, but for `chunks` of Certs and `skip` of Base.Trim, whose fuel is the length of
-- the text: each of their rounds takes a character or more.
--
-- What is not under the repository's sources is a parameter: blake3 (Base.Blake3), the conversion of
-- bytes to a text (Base.Utf8), the streams of quinn and tokio
-- (Quic.Streams); each comes with the laws that the code relies on and an instance that meets them. So
-- are SHA-256 and the verification by webpki (Fingerprint.Verify), of which no law is used, base64 and the reading of PEM
-- (Certs), and what rustls says of a certificate with its key (Server.Reload). The file system, the environment and the
-- parsing of a socket address are the record `Host` of Settings; in Certs a file system is a function of the path, and
-- the answers to its calls are arguments.
--
-- The loop `run` of ws.rs is a function of the inputs that its `select!` finds ready, in any order; a
-- one-shot channel is a ticket, and what was sent on it is listed beside the ticket. In Client, `reconnect` is
-- the run of one task alone; in Client.Turns the tasks take its steps in any order, where a step is what one lock
-- guards. A chunk of a stream is queued in one step of Ws.Credit and counted in another.
--
-- Not modelled: the pipes of a stream themselves and the bounds of the queues, the HTTP handshake of a
-- WebSocket, `into_relay` of crates/hydr-transport/src/lib.rs, the set-up of rustls and of
-- quinn's transport, the sockets of the server, its task that brings back the datagrams
-- of the next hop, and its WebSocket listener behind the rate limit, the random
-- part of the client's delay, the protobuf settings, the log, and the parsing of YAML and of arguments; these are
-- I/O, calls of libraries, generated code and glue.
pub mod Base
pub mod Varint
pub mod Ws
pub mod Address
pub mod Fingerprint
pub mod Frame
pub mod Message
pub mod Replay
pub mod Metrics
pub mod Obfuscator
pub mod Nonce
pub mod Server
pub mod Settings
pub mod Certs
pub mod Cc
pub mod Client
pub mod Quic
pub mod Tunnel
pub mod Udp
pub mod Socks
pub mod Tests
