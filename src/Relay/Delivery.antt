-- ===== src/Relay/Delivery.antt =====
-- client/src/client.rs and server/src/server.rs: datagrams written to a stream reach their targets.
use juicity_rs.Base.{
  ℕ, zero, suc, ◌≡◌, ◌≤◌, ◌<◌, refl, ap, ◌∙◌, List, [], ◌∷◌, ◌++◌, map, All, some, Bool, true,
  false, ◌&&◌, Bytes, ok, length, le→leb, ◌==◌, to_be_bytes, >>=-eq-ok, arith, append_assoc,
  length-append,
}
use juicity_rs.Protocol.Wire.{Hosts, HostsLaws, SocketAddr, network_tcp, sent_target}
use juicity_rs.Protocol.Reader.{read_exact}
use juicity_rs.Protocol.Header.{build_proxy_header}
use juicity_rs.Protocol.Header.RoundTrip.{relay_header, relay_header-sent}
use juicity_rs.Protocol.Cached.{
  from_host_port, build_trojanc_addr, build_trojanc_addr_cached, read_trojanc_addr,
  read_trojanc_addr_into,
}
use juicity_rs.Relay.{
  udp_packet_len, open_udp_stream, send_udp_datagram, Session, Received, Remote, next_datagram,
  quic_to_remote, handle_udp_relay, handle_stream, udp_relay, tcp_relay, open_tcp_stream,
}
use juicity_rs.Relay.Frames.{
  Datagram, as_sent, IsDeliverable, send_datagrams, Headed, deliverable-Headed, deliverable-Opened,
  reads_into, reads_payload, udp_packet_len_lem,
}
use juicity_rs.Relay.Resolving.{IsStable, IsFaithful, resolves_lem, empty-IsFaithful}

module _ (net : Hosts) (laws : HostsLaws net) where
  module _ (remote : Remote) (target : Bytes → ℕ → SocketAddr) where
    abbrev arrival : Datagram → SocketAddr × Bytes
    arrival d = (target (as_sent net d.host) d.port, d.payload)

    record Next (d : Datagram) (s : Session) (rest : Bytes) : Type 0 where
      after : Received
      answer : next_datagram net remote s ≡ ok after
      arrives : (after.target, after.payload) ≡ arrival d
      stream : after.session.stream ≡ rest
      faithful : IsFaithful net remote target after.session.local_resolved

    next_datagram_lem :
        (d : Datagram) (s : Session) (rest : Bytes) (headed : Headed net d)
        → IsDeliverable net d
        → IsStable net remote target
        → IsFaithful net remote target s.local_resolved
        → s.stream ≡ headed.header ++ (to_be_bytes (length d.payload) ++ (d.payload ++ rest))
        → Next d s rest
    unfolding next_datagram
    next_datagram_lem d s rest headed ok_d stable faithful e =
        let tail = to_be_bytes (length d.payload) ++ (d.payload ++ rest) in
        let read : read_trojanc_addr net s.stream ≡ ok ((as_sent net d.host, d.port), tail) =
          ap (read_trojanc_addr net) e ∙ headed.reads tail in
        let (e0, e1) = reads_into net s.addr_buf s.stream (as_sent net d.host) d.port tail read in
        let r =
          resolves_lem net remote target (as_sent net d.host) d.port s.resolutions s.local_resolved
            stable faithful in
        record {
          after = record {
            target = target (as_sent net d.host) d.port;
            payload = d.payload;
            session = record {
              addr_buf = as_sent net d.host;
              resolutions = r.calls;
              local_resolved = r.later;
              stream = rest;
            };
          };
          answer = rw (e1, reads_payload d.payload rest ok_d.size, e0, r.answer);
          arrives = refl;
          stream = refl;
          faithful = r.faithful;
        }

    -- The socket takes every packet.
    abbrev IsOpen : Type 0
    IsOpen = (a : SocketAddr) (packet : Bytes) → remote.sends a packet ≡ true

    quic_to_remote-Next :
        (fuel : ℕ) (d : Datagram) (s : Session) (rest : Bytes) (n : Next d s rest)
        → IsOpen
        → quic_to_remote net remote (suc fuel) s
          ≡ arrival d ∷ quic_to_remote net remote fuel n.after.session
    unfolding quic_to_remote
    quic_to_remote-Next fuel d s rest n takes =
        let sends = takes n.after.target n.after.payload in
        let step : quic_to_remote net remote (suc fuel) s
            ≡ (n.after.target, n.after.payload) ∷ quic_to_remote net remote fuel n.after.session =
          ground (arith, n.answer, sends) in
        step ∙ ap (λ a. a ∷ quic_to_remote net remote fuel n.after.session) n.arrives

    -- What the client writes for its later datagrams, and what the loop makes of it.
    record Delivered (addr_buf : Bytes) (ds : List Datagram) : Type 0 where
      written : Bytes
      writes : send_datagrams net addr_buf ds ≡ ok written
      sends :
          (fuel : ℕ) (s : Session)
          → length written ≤ fuel
          → s.stream ≡ written
          → IsFaithful net remote target s.local_resolved
          → quic_to_remote net remote fuel s ≡ map arrival ds

    at_end : (fuel : ℕ) (s : Session) → s.stream ≡ [] → quic_to_remote net remote fuel s ≡ []
    unfolding quic_to_remote next_datagram read_trojanc_addr_into read_exact
    at_end zero s e = refl
    at_end (suc fuel) s e = ground arith

    abbrev frame : (d : Datagram) → Headed net d → Bytes
    frame d headed = headed.header ++ (to_be_bytes (length d.payload) ++ d.payload)

    sends_frame :
        (d : Datagram) (headed : Headed net d) (addr_buf : Bytes)
        → length d.payload ≤ 65535
        → send_udp_datagram (from_host_port net d.host d.port) d.payload addr_buf
          ≡ (frame d headed, ok (frame d headed))
    unfolding send_udp_datagram udp_packet_len
    sends_frame d headed addr_buf size =
        let built : build_trojanc_addr_cached [] (from_host_port net d.host d.port)
            ≡ ok headed.header =
          unfold build_trojanc_addr in headed.built in
        ground (arith, built, le→leb (length d.payload) 65535 size)

    sends_more :
        (d : Datagram) (ds : List Datagram) (headed : Headed net d)
        (more : Delivered (frame d headed) ds)
        → IsDeliverable net d
        → IsStable net remote target
        → IsOpen
        → (fuel : ℕ) (s : Session) → length (frame d headed ++ more.written) ≤ fuel
        → s.stream ≡ frame d headed ++ more.written
        → IsFaithful net remote target s.local_resolved
        → quic_to_remote net remote fuel s ≡ arrival d ∷ map arrival ds
    sends_more d ds headed more hd stable takes zero s le e f =
        let size = length-append (frame d headed) more.written in
        let size' = length-append headed.header (to_be_bytes (length d.payload) ++ d.payload) in
        absurd (omega (arith, size, size', headed.nonempty))
    sends_more d ds headed more hd stable takes (suc fuel) s le e f =
        let size = length-append (frame d headed) more.written in
        let size' = length-append headed.header (to_be_bytes (length d.payload) ++ d.payload) in
        let whole : frame d headed ++ more.written
            ≡ headed.header ++ (to_be_bytes (length d.payload) ++ (d.payload ++ more.written)) =
          append_assoc headed.header (to_be_bytes (length d.payload) ++ d.payload) more.written in
        let n = next_datagram_lem d s more.written headed hd stable f (e ∙ whole) in
        quic_to_remote-Next fuel d s more.written n takes
        ∙ ap (λ rest. arrival d ∷ rest)
            (more.sends fuel n.after.session (omega (arith, size, size', headed.nonempty)) n.stream
              n.faithful)

    delivered_lem :
        (addr_buf : Bytes) (ds : List Datagram)
        → All (IsDeliverable net) ds
        → IsStable net remote target
        → IsOpen
        → Delivered addr_buf ds
    delivered_lem addr_buf [] h stable takes = record {
      written = [];
      writes = refl;
      sends = λ fuel s le e f. at_end fuel s e;
    }
    delivered_lem addr_buf (d ∷ ds) (hd, hs) stable takes =
        let headed = deliverable-Headed net laws d hd in
        let more = delivered_lem (frame d headed) ds hs stable takes in
        record {
          written = frame d headed ++ more.written;
          writes = rw (sends_frame d headed addr_buf hd.size, more.writes) refl;
          sends = sends_more d ds headed more hd stable takes;
        }

    handle_udp_relay_lem :
        (disable_udp_443 : Bool) (d : Datagram) (ds : List Datagram) (headed : Headed net d)
        (more : Delivered [] ds)
        → IsDeliverable net d
        → IsStable net remote target
        → IsOpen
        → ((a : SocketAddr) → remote.dial_udp a ≡ true)
        → (disable_udp_443 && d.port == 443) ≡ false
        → handle_udp_relay net remote disable_udp_443
            (headed.header ++ (to_be_bytes (length d.payload) ++ (d.payload ++ more.written)))
          ≡ ok (arrival d ∷ map arrival ds)
    unfolding handle_udp_relay
    handle_udp_relay_lem disable_udp_443 d ds headed more hd stable takes dials unblocked =
        let first = target (as_sent net d.host) d.port in
        let session : Session = record {
          addr_buf = [];
          resolutions = 1;
          local_resolved = [];
          stream = more.written;
        } in
        rw (
          headed.reads (to_be_bytes (length d.payload) ++ (d.payload ++ more.written)),
          unblocked,
          stable 0 (as_sent net d.host) d.port,
          dials first,
          reads_payload d.payload more.written hd.size,
          takes first d.payload,
          more.sends (length more.written) session (omega arith) refl
              (empty-IsFaithful net remote target),
        )

    -- Where the names resolve to addresses of their own, the dialer and the socket work, and the
    -- first datagram is not one to a blocked port 443: what the client writes on a new UDP stream
    -- for a first datagram and any later ones, all of them deliverable, makes the server send each
    -- payload, in order, to the address of its host and port.
    pub handle_stream-open_udp_stream :
        (disable_udp_443 : Bool) (d : Datagram) (ds : List Datagram)
        → IsDeliverable net d
        → All (IsDeliverable net) ds
        → IsStable net remote target
        → IsOpen
        → ((a : SocketAddr) → remote.dial_udp a ≡ true)
        → (disable_udp_443 && d.port == 443) ≡ false
        → (opening later : Bytes) × (open_udp_stream net d.host d.port d.payload ≡ ok opening)
          × (send_datagrams net [] ds ≡ ok later)
          × (handle_stream net remote disable_udp_443 (opening ++ later)
              ≡ ok (udp_relay (map arrival (d ∷ ds))))
    unfolding open_udp_stream handle_stream
    handle_stream-open_udp_stream disable_udp_443 d ds hd hs stable takes dials unblocked =
        let headed = deliverable-Headed net laws d hd in
        let more = delivered_lem [] ds hs stable takes in
        let stream = deliverable-Opened net laws d hd in
        let tail = headed.header ++ (to_be_bytes (length d.payload) ++ d.payload) in
        let whole : (stream.header ++ tail) ++ more.written
            ≡ stream.header
              ++ (headed.header
                  ++ (to_be_bytes (length d.payload) ++ (d.payload ++ more.written))) =
          append_assoc stream.header tail more.written
          ∙ ap (λ t. stream.header ++ t)
              (append_assoc headed.header (to_be_bytes (length d.payload) ++ d.payload)
                more.written) in
        (
          stream.header ++ tail,
          more.written,
          rw (udp_packet_len_lem d.payload hd.size, stream.built, headed.built) refl,
          more.writes,
          rw
              (
                whole,
                stream.reads (
                    headed.header
                    ++ (to_be_bytes (length d.payload) ++ (d.payload ++ more.written))),
                handle_udp_relay_lem disable_udp_443 d ds headed more hd stable takes dials
                    unblocked,
              )
              refl,
        )

  -- For a UTF-8 address and a 16-bit port, where the address is representable, the server answers
  -- the stream that the client opens for TCP by a connection to that address, in canonical form,
  -- which gets all that follows on the stream.
  pub handle_stream-open_tcp_stream :
      (remote : Remote) (disable_udp_443 : Bool) (addr rest : Bytes) (port : ℕ) (sent : Bytes × ℕ)
      → port < 65536
      → net.is_utf8 addr ≡ true
      → sent_target net addr port ≡ some sent
      → (opening : Bytes) × (open_tcp_stream net addr port ≡ ok opening)
        × (handle_stream net remote disable_udp_443 (opening ++ rest)
            ≡ ok (tcp_relay sent.0 sent.1 rest))
  unfolding open_tcp_stream handle_stream relay_header
  handle_stream-open_tcp_stream remote disable_udp_443 addr rest port sent hp hu h =
      let (header, built, reads) =
        >>=-eq-ok (build_proxy_header net network_tcp addr port) _
          (relay_header-sent net laws network_tcp port addr rest sent hp hu h) in
      (header, built, rw reads refl)
