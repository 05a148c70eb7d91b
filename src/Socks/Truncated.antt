-- ===== src/Socks/Truncated.antt =====
-- client/src/local.rs: names longer than the format can carry.
use juicity_rs.Base.{
  ℕ, ◌≡◌, ◌≢◌, ap, ◌%◌, ◌≤◌, ◌<◌, ◌∷◌, ◌++◌, none, some, Bytes, length, length-take, arith, drop,
  to_be_bytes,
}
use juicity_rs.Protocol.Wire.{Hosts}
use juicity_rs.Socks.{
  UdpOutboundDatagram, parse_domain_datagram, parse_socks5_udp_request, socks5_addr,
  build_socks5_udp_packet,
}

parse_domain-short :
    (net : Hosts) (packet : Bytes) (dlen : ℕ) (d : UdpOutboundDatagram)
    → parse_domain_datagram net packet dlen ≡ some d
    → length d.addr ≤ dlen
unfolding parse_domain_datagram
parse_domain-short net packet dlen d h = ground (arith, length-take dlen (drop 5 packet))

-- A name of more than 255 bytes that is no IP address does not survive: whatever the built
-- datagram parses to has another address.
pub long_domain_lost :
    (net : Hosts) (host payload : Bytes) (port : ℕ) (d : UdpOutboundDatagram)
    → net.parse_v4 host ≡ none
    → net.parse_v6 host ≡ none
    → 255 < length host
    → parse_socks5_udp_request net (build_socks5_udp_packet net host port payload) ≡ some d
    → d.addr ≢ host
unfolding parse_socks5_udp_request build_socks5_udp_packet socks5_addr
long_domain_lost net host payload port d e4 e6 hl h same =
    let packet : Bytes =
      0 ∷ (0 ∷ (0 ∷ (3 ∷ (length host % 256 ∷ (host ++ (to_be_bytes port ++ payload)))))) in
    let same_length : length d.addr ≡ length host = ap length same in
    let short = parse_domain-short net packet (length host % 256) d in
    ground (arith, short, same_length)
