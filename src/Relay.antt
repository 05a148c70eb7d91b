-- ===== src/Relay.antt =====
-- client/src/client.rs and server/src/server.rs: the streams of a proxied connection, from what
-- the client writes to what the server sends to the target. The connection and the sockets are
-- outside; what the code asks of them is a parameter.
pub mod Frames
pub mod Resolving
pub mod Delivery
use native.Mathlib.Decide.{ℕ_discrete}
use juicity_rs.Base.{
  ℕ, zero, suc, ◌≡◌, ◌+◌, List, [], ◌∷◌, ◌++◌, Option, none, some, Bool, true, false, ◌&&◌, ok_or,
  ensure, Bytes, Result, ok, err, length, leb, if◌then◌else◌, ◌==◌, Bytes-discrete, find, put,
  to_be_bytes, from_be_bytes,
}
use juicity_rs.Base
use juicity_rs.Protocol.Wire.{
  Hosts, Error, SocketAddr, network_tcp, network_udp, payload_too_long, unknown_network, unresolved,
  dial_failed, send_failed,
}
use juicity_rs.Protocol.Reader.{Reader, ◌>>=◌, ◌>>◌, pure, bail, read_exact}
use juicity_rs.Protocol.Header.{build_proxy_header, read_proxy_header}
use juicity_rs.Protocol.Cached.{
  CachedAddr, build_trojanc_addr, build_trojanc_addr_cached, read_trojanc_addr,
  read_trojanc_addr_into,
}

-- `u16::try_from(data.len())`, to the length's bytes.
unfoldable pub udp_packet_len : Bytes → Result Error Bytes
udp_packet_len datagram =
    if leb (length datagram) 65535 then ok (to_be_bytes (length datagram)) else err payload_too_long

-- What `open_tcp_stream` writes on the stream it opens.
unfoldable pub open_tcp_stream : Hosts → Bytes → ℕ → Result Error Bytes
open_tcp_stream net addr port = build_proxy_header net network_tcp addr port

-- What `open_udp_stream` writes on the stream it opens, in one write.
unfoldable pub open_udp_stream : Hosts → Bytes → ℕ → Bytes → Result Error Bytes
unfolding udp_packet_len
open_udp_stream net addr port first_packet = Base.◌>>=◌ (udp_packet_len first_packet) λ pkt_len.
    Base.◌>>=◌ (build_proxy_header net network_udp addr port) λ stream_header.
      Base.◌>>=◌ (build_trojanc_addr net addr port)
        λ dgram_addr. ok (stream_header ++ (dgram_addr ++ (pkt_len ++ first_packet)))

-- `send_udp_datagram`: the scratch buffer after the call, and what was written.
unfoldable pub send_udp_datagram : CachedAddr → Bytes → Bytes → Bytes × Result Error Bytes
unfolding udp_packet_len
send_udp_datagram cached datagram addr_buf = elim (udp_packet_len datagram) [
  | err e ↦ (addr_buf, err e)
  | ok len ↦ elim (build_trojanc_addr_cached [] cached) [
    | err e ↦ ([], err e)
    | ok header ↦ (header ++ (len ++ datagram), ok (header ++ (len ++ datagram)))
  ]
]

-- The length and the payload of a datagram.
unfoldable pub read_payload : Reader Bytes
read_payload = do len_buf ← read_exact 2; read_exact (from_be_bytes len_buf)

-- `local_resolved`, a map of maps.
abbrev pub Resolved : Type 0
Resolved = List (Bytes × List (ℕ × SocketAddr))

unfoldable pub lookup_port : ℕ → Option (List (ℕ × SocketAddr)) → Option SocketAddr
lookup_port port none = none
lookup_port port (some ports) = find ℕ_discrete port ports

-- `entry(host).or_default()`
unfoldable pub ports_or_default : Option (List (ℕ × SocketAddr)) → List (ℕ × SocketAddr)
ports_or_default none = []
ports_or_default (some ports) = ports

unfoldable pub lookup_resolved : Bytes → ℕ → Resolved → Option SocketAddr
unfolding lookup_port
lookup_resolved host port local_resolved =
    lookup_port port (find Bytes-discrete host local_resolved)

unfoldable pub remember : Bytes → ℕ → SocketAddr → Resolved → Resolved
unfolding ports_or_default
remember host port resolved local_resolved =
    put Bytes-discrete host
      (put ℕ_discrete port resolved (ports_or_default (find Bytes-discrete host local_resolved)))
      local_resolved

-- The locals of the task `quic_to_remote`, with the number of resolutions so far, and the bytes
-- that are to come on the stream.
pub record Session : Type 0 where
  pub addr_buf : Bytes
  pub resolutions : ℕ
  pub local_resolved : Resolved
  pub stream : Bytes

pub record Received : Type 0 where
  pub target : SocketAddr
  pub payload : Bytes
  pub session : Session

-- What a stream asks of its surroundings: the answer of the n-th resolution of a target, whether
-- the dialer opens a socket, and whether the socket takes a packet.
pub record Remote : Type 0 where
  pub dial_udp : SocketAddr → Bool
  pub resolve : ℕ → Bytes → ℕ → Option SocketAddr
  pub sends : SocketAddr → Bytes → Bool

module _ (net : Hosts) (remote : Remote) where
  -- The target of a datagram, from the session's own cache or resolved.
  unfoldable pub resolve_cached : Bytes → ℕ → ℕ → Resolved → Option (SocketAddr × ℕ × Resolved)
  unfolding lookup_resolved remember
  resolve_cached host port n local_resolved = elim (lookup_resolved host port local_resolved) [
    | some cached ↦ some (cached, n, local_resolved)
    | none ↦ elim (remote.resolve n host port) [
      | some resolved ↦ some (resolved, n + 1, remember host port resolved local_resolved)
      | none ↦ none
    ]
  ]

  -- One round of the loop up to the send; it breaks where this fails.
  unfoldable pub next_datagram : Session → Result Error Received
  unfolding resolve_cached read_payload
  next_datagram s =
      let (host, read) = read_trojanc_addr_into net s.addr_buf s.stream in
      Base.◌>>=◌ read λ (port, rest). Base.◌>>=◌ (read_payload rest) λ (payload, rest').
        Base.◌>>=◌ (ok_or (resolve_cached host port s.resolutions s.local_resolved) unresolved)
          λ (target, n, local_resolved). ok (record {
            target = target;
            payload = payload;
            session = record {
              addr_buf = host;
              resolutions = n;
              local_resolved = local_resolved;
              stream = rest';
            };
          })

  -- The loop: the packets sent to the targets. Each round takes at least a byte off the stream.
  unfoldable pub quic_to_remote : ℕ → Session → List (SocketAddr × Bytes)
  unfolding next_datagram
  quic_to_remote zero s = []
  quic_to_remote (suc fuel) s = elim (next_datagram s) [
    | err e ↦ []
    | ok r ↦ elim (remote.sends r.target r.payload) [
      | true ↦ (r.target, r.payload) ∷ quic_to_remote fuel r.session
      | false ↦ []
    ]
  ]

  -- `handle_udp_relay`, the direction to the target.
  unfoldable pub handle_udp_relay : Bool → Bytes → Result Error (List (SocketAddr × Bytes))
  unfolding quic_to_remote read_payload
  handle_udp_relay disable_udp_443 s =
      Base.◌>>=◌ (read_trojanc_addr net s) λ ((first_host, first_port), rest).
        if disable_udp_443 && first_port == 443
        then ok []
        else (Base.◌>>=◌ (ok_or (remote.resolve 0 first_host first_port) unresolved)
            λ first_target_addr.
              Base.◌>>=◌ (ensure (remote.dial_udp first_target_addr) dial_failed) λ _.
                Base.◌>>=◌ (read_payload rest) λ (datagram, rest').
                  Base.◌>>=◌ (ensure (remote.sends first_target_addr datagram) send_failed) λ _.
                    ok (
                      (first_target_addr, datagram)
                      ∷ quic_to_remote (length rest') (record {
                        addr_buf = [];
                        resolutions = 1;
                        local_resolved = [];
                        stream = rest';
                      })))

-- What a stream does: a TCP connection to a host and port that is fed the rest of the stream, or
-- UDP packets.
pub data Served : Type 0 where
  tcp_relay : Bytes → ℕ → Bytes → Served
  udp_relay : List (SocketAddr × Bytes) → Served

unfoldable pub handle_stream : Hosts → Remote → Bool → Bytes → Result Error Served
unfolding handle_udp_relay
handle_stream net remote disable_udp_443 s =
    Base.◌>>=◌ (read_proxy_header net s) λ ((network, hostname, port), rest).
      if network == network_tcp
      then ok (tcp_relay hostname port rest)
      else if network == network_udp
      then (Base.◌>>=◌ (handle_udp_relay net remote disable_udp_443 rest)
          λ sent. ok (udp_relay sent))
      else err (unknown_network network)
