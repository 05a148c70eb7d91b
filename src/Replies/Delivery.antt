-- ===== src/Replies/Delivery.antt =====
-- server/src/udp.rs and client/src/local.rs: replies arrive in order, under their source.
use juicity_rs.Base.{
  ℕ, zero, suc, ◌≡◌, ◌≤◌, ◌<◌, refl, ap, ◌∙◌, List, [], ◌∷◌, ◌++◌, map, All, Option, none, some,
  Option-cases, Bytes, ok, length, append_assoc, length-append, arith, inl, inr,
}
use juicity_rs.Protocol.Wire.{
  Hosts, HostsLaws, SocketAddr, sock_v4, sock_v6, IsSocketAddr, show_ip, sock_port,
}
use juicity_rs.Protocol.Reader.{read_exact}
use juicity_rs.Protocol.Cached.{read_trojanc_addr}
use juicity_rs.Socks.{build_socks5_udp_packet}
use juicity_rs.Replies.{Datagram, to_canonical, relay_responses, read_one_udp_response, reader_task}
use juicity_rs.Socks.{socks5_addr, UdpOutboundDatagram, parse_socks5_udp_request}
use juicity_rs.Socks.RoundTrip.{parse-v4, parse-v6}
use juicity_rs.Replies.Frames.{IsReply, to_canonical-IsSocketAddr, Framed, reply-Framed}

module _ (net : Hosts) where
  abbrev reply_packet : Datagram → Bytes
  reply_packet d =
      build_socks5_udp_packet net (show_ip net (to_canonical d.addr))
        (sock_port (to_canonical d.addr)) d.payload

  -- What the server writes for its replies, and what the client's task makes of it.
  record Delivered (ds : List Datagram) : Type 0 where
    written : Bytes
    writes : (buf : Bytes) → relay_responses ds buf ≡ (buf ++ written, ok tt)
    sends : (fuel : ℕ) → length written ≤ fuel → reader_task net fuel written ≡ map reply_packet ds

  reader_task-nil : (fuel : ℕ) → reader_task net fuel [] ≡ []
  unfolding reader_task read_one_udp_response read_trojanc_addr read_exact
  reader_task-nil zero = refl
  reader_task-nil (suc fuel) = refl

  reader_task-frame :
      (d : Datagram) (framed : Framed net d) (rest : Bytes) (fuel : ℕ)
      → reader_task net (suc fuel) (framed.frame ++ rest)
        ≡ reply_packet d ∷ reader_task net fuel rest
  unfolding reader_task
  reader_task-frame d framed rest fuel = ground (arith, framed.reads rest)

  sends_more :
      (d : Datagram) (ds : List Datagram) (framed : Framed net d) (more : Delivered ds) (fuel : ℕ)
      → length (framed.frame ++ more.written) ≤ fuel
      → reader_task net fuel (framed.frame ++ more.written) ≡ reply_packet d ∷ map reply_packet ds
  sends_more d ds framed more zero h =
      absurd (omega (arith, h, framed.nonempty, length-append framed.frame more.written))
  sends_more d ds framed more (suc fuel) h =
      reader_task-frame d framed more.written fuel
      ∙ ap (λ ps. reply_packet d ∷ ps)
          (more.sends fuel
            (omega (arith, h, framed.nonempty, length-append framed.frame more.written)))

  delivered_lem : (ds : List Datagram) → All IsReply ds → Delivered ds
  unfolding relay_responses
  delivered_lem [] h = record {
    written = [];
    writes = λ buf. refl;
    sends = λ fuel le. reader_task-nil fuel;
  }
  delivered_lem (d ∷ ds) (h, hs) =
      let framed = reply-Framed net d h in
      let more = delivered_lem ds hs in
      record {
        written = framed.frame ++ more.written;
        writes = λ buf.
            rw
              (
                framed.built,
                more.writes (buf ++ framed.frame),
                append_assoc buf framed.frame more.written,
              )
              refl;
        sends = sends_more d ds framed more;
      }

  module _ (laws : HostsLaws net) where
    v6_no_v4 :
        (ip : Bytes) → length ip ≡ 16 → All (λ b. b < 256) ip → net.parse_v4 (net.show_v6 ip) ≡ none
    v6_no_v4 ip h b = elim (Option-cases (net.parse_v4 (net.show_v6 ip))) [
      | inl e ↦ e
      | inr (o, e) ↦ cc (laws.v4_no_colon _ o e, laws.v6_colon _ ip (laws.parse_show_v6 ip h b))
    ]

    -- What the application reads from a packet of the inbound.
    parse-show_ip :
        (a : SocketAddr) (payload : Bytes)
        → IsSocketAddr a
        → parse_socks5_udp_request net
            (build_socks5_udp_packet net (show_ip net a) (sock_port a) payload)
          ≡ some (record { addr = show_ip net a; port = sock_port a; payload = payload })
    unfolding show_ip sock_port socks5_addr
    parse-show_ip (sock_v4 ip port) payload (h, b, p) =
        parse-v4 net laws port p payload ip (net.show_v4 ip)
          (rw (laws.parse_show_v4 ip h b, socks5_addr) refl) h
    parse-show_ip (sock_v6 ip port) payload (h, b, p) =
        parse-v6 net laws port p payload ip (net.show_v6 ip)
          (rw (v6_no_v4 ip h b, laws.parse_show_v6 ip h b, socks5_addr) refl) h

    -- What the application gets for a reply: its source, an IPv4-mapped one as IPv4, and payload.
    abbrev pub as_received : Datagram → Option UdpOutboundDatagram
    as_received d = some (record {
      addr = show_ip net (to_canonical d.addr);
      port = sock_port (to_canonical d.addr);
      payload = d.payload;
    })

    parse-replies :
        (ds : List Datagram)
        → All IsReply ds
        → map (parse_socks5_udp_request net) (map reply_packet ds) ≡ map as_received ds
    parse-replies [] h = refl
    parse-replies (d ∷ ds) (h, hs) =
        rw
          (
            parse-show_ip (to_canonical d.addr) d.payload
                (to_canonical-IsSocketAddr d.addr h.source),
            parse-replies ds hs,
          )
          refl

    -- The replies that the server's socket receives, each from an address with the octets of its
    -- family and of at most 65535 bytes, reach the application in order: what the server writes to
    -- the stream, the client turns into packets that parse to the source (an IPv4-mapped one as
    -- IPv4), its port and the payload.
    pub reader_task-relay_responses :
        (ds : List Datagram) (buf : Bytes)
        → All IsReply ds
        → (written : Bytes) × (relay_responses ds buf ≡ (buf ++ written, ok tt))
          × (map (parse_socks5_udp_request net) (reader_task net (length written) written)
              ≡ map as_received ds)
    reader_task-relay_responses ds buf h =
        let d = delivered_lem ds h in
        (
          d.written,
          d.writes buf,
          ap (map (parse_socks5_udp_request net)) (d.sends (length d.written) (omega arith))
              ∙ parse-replies ds h,
        )
