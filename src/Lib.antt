-- ===== src/Lib.antt =====
-- juicity-rs is a proxy over QUIC. A client takes SOCKS5 and HTTP connections and carries each
-- over a stream of one authenticated QUIC connection; the server dials the targets. UDP goes over
-- streams too, or, under an authentication sent beforehand, as encrypted packets beside QUIC on
-- the server's UDP port.
--
-- Parts, and the files that model them:
-- - Base: what the others share. Numbers are natural numbers, a byte string is a list of numbers,
--   `Result` is Rust's with `?` as bind, a hash map is an association list over a key with
--   decidable equality, `HashMap::retain` is a filter.
-- - Protocol (common/src/protocol.rs). Wire has the constants, enumerations and messages, and the
--   parameter `Hosts` for the standard library's IP address parser and printer and the UTF-8
--   decoders, with its documented behaviour as `HostsLaws`. A reader (Reader) takes bytes off the
--   front of a stream; a writer (Writer) appends and keeps what a failure left behind. Header:
--   `read_command_head`, `read_authenticate`, `read_proxy_header_async`, `build_proxy_header`.
--   Cached: `CachedAddr` and the datagram header's builders and readers. Underlay: the
--   authentication messages of the persistent stream.
-- - Crypto (common/src/crypto.rs): `generate_cert_chain_hash`, `UnderlayCipher` and the allocating
--   functions, over the parameters SHA-256, HKDF and ChaCha20-Poly1305 (`Aead`, `AeadLaws`).
-- - Server.InFlight (server/src/inflight.rs): the table that matches packets to authentications.
--   Each critical section of its mutex is a function; `store`, `evict` and `cleanup` interleave as
--   the steps of a relation, in which a packet in `evict` is a state machine.
-- - Server.Demux (server/src/underlay_socket.rs): the socket that keeps QUIC packets for Quinn and
--   sends the others to a bounded channel, with the swaps, counts and budget of `poll_recv`.
-- - Relay (client/src/client.rs, server/src/server.rs): the streams of a proxied connection, from
--   `open_udp_stream` and `send_udp_datagram` to `handle_stream` and the loop that sends each
--   datagram to its target. DNS resolutions, the dialer and the socket are the parameter `Remote`.
-- - Socks (client/src/local.rs): the SOCKS5 handshake and the datagrams of UDP ASSOCIATE.
-- - Reconnect (client/src/client.rs): the shared connection. A caller of `connect` or `preconnect`
--   is a state machine over the critical sections of `reconnect_lock`; calls, the end of dials,
--   closed connections and cancelled futures interleave as steps.
-- - Session (client/src/client.rs, server/src/server.rs): the message that authenticates a connection,
--   `handle_auth`, and the task that stores the underlay authentications of the stream. Keying
--   material export is a parameter.
-- - Link (common/src/link.rs): `parse_host_port`, over the standard library's parser of numbers, and
--   Link.Share the link of a configuration, over the encoder of URLs.
-- - Replies (server/src/udp.rs, client/src/local.rs): the way back of a UDP stream, `relay_responses`
--   on the packets of the server's socket and the task that turns its frames into packets for the
--   SOCKS5 client.
-- - Server.Pool (server/src/udp.rs): `UdpEndpointPool`. A caller of `get_or_create` is a state machine
--   with a step for each lock or look at the cache, its dropped guard included.
-- - Server.Dns (server/src/server.rs): `resolve_udp_target`, calls as state machines over its critical
--   sections, with the cache in the order of its `IndexMap`.
-- - Server.TcpRelay (server/src/tcp.rs): `copy_direction` on what its reader and writer answer, and the
--   idle watchdog of `relay` on the values that the copies store.
-- - Server.Underlay (server/src/server.rs): the sessions of underlay packets, from
--   `run_underlay_packet_loop` to `handle_non_quic_underlay_packet`, over Crypto and the table of
--   Server.InFlight; in Loop the loop spawns handlers, and each runs as one step. The cache of sessions calls its eviction listener on
--   a removal and on a replacement, as its documentation says.
-- - Server.RelayBack (server/src/server.rs): the task that seals the replies of such a session, with
--   its batches of salts.
-- - Http (client/src/local.rs): the HTTP inbound, from `handle_http_proxy` to the request that is sent
--   on or the tunnel that is opened; Text has the methods of `str` that it calls, on lists of
--   characters. Printing and parsing a port are parameters.
-- - Associate (client/src/local.rs): the sessions of UDP ASSOCIATE as a step relation of the forwarder,
--   the tasks that open streams, the writers, the supervisors and the cleanup.
-- - Gui (gui/src): Profile and Draft have a node's profile and the text of the editor (config.rs,
--   validate.rs, ui/controller/nodes.rs); Controller the state of the list (mod.rs), Nodes the
--   operations on it (nodes.rs), and Connection how the core is started and stopped (overview.rs);
--   Save the two files on the disk, Save, Revert and the prompt for unsaved changes (save.rs,
--   persist.rs); Steps the calls one after the other. Whether a write or a start of the core
--   succeeds is an input of each call. Traffic has the traffic monitor (traffic.rs), over the
--   arithmetic of `f64`. Address has the addresses as text (util.rs), and Links the links that are
--   imported and exported (link.rs); the parser of URLs, the serializer of form data and base64 are
--   parameters of it.
-- - Tests: each theorem with hypotheses at a concrete input, over small stand-ins that satisfy the
--   laws of the parameters.
--
-- Fuel and bounds: the watchdog has as many rounds as there are stores, and one more; the loop
-- over a received buffer has the buffer's length as fuel, and the loop over a stream's datagrams
-- the stream's length; each round takes at least a byte, so that this is enough. Ports and lengths
-- are 16-bit where a theorem says so, and a length cast to a byte wraps (`% 256`).
--
-- Not modelled: the other parts of the GUI, among them the reload of files that another program
-- changed; the command lines, logging, TLS and QUIC configuration, system calls on sockets (input and
-- output), QR codes, and the validation of the configuration.
pub mod Base
pub mod Protocol
pub mod Crypto
pub mod Server
pub mod Relay
pub mod Socks
pub mod Replies
pub mod Reconnect
pub mod Session
pub mod Link
pub mod Http
pub mod Associate
pub mod Gui
mod Tests
