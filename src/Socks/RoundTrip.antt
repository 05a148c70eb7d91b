-- ===== src/Socks/RoundTrip.antt =====
-- client/src/local.rs: what the inbound writes reads back.
use juicity_rs.Base.{
  ℕ, suc, ◌≡◌, ◌+◌, ◌≤◌, ◌<◌, refl, sym, ap, ◌∙◌, ◌∷◌, ◌++◌, none, some, true, false, Bytes, length,
  ltb, take, drop, to_be_bytes, from_be_bytes-to_be_bytes, Option-cases, inl, inr, arith,
  length-append, take-append, drop-append, append_assoc,
}
use juicity_rs.Protocol.Wire.{Hosts, HostsLaws}
use juicity_rs.Socks.{
  socks5_addr, finish_datagram, parse_domain_datagram, parse_socks5_udp_request,
  build_socks5_udp_packet,
}

-- The text of the address that a message names.
unfoldable pub socks5_host : Hosts → Bytes → Bytes
socks5_host net host = elim (net.parse_v4 host) [
  | some ip ↦ net.show_v4 ip
  | none ↦ elim (net.parse_v6 host) [ some ip ↦ net.show_v6 ip | none ↦ host ]
]

-- What comes behind an address: its end, the port, and the payload.
finish_datagram_lem :
    (net : Hosts) (front addr payload : Bytes) (port offset : ℕ)
    → length front ≡ offset
    → port < 65536
    → finish_datagram (front ++ (to_be_bytes port ++ payload)) offset addr
      ≡ some (record { addr = addr; port = port; payload = payload })
unfolding finish_datagram
finish_datagram_lem net front addr payload port offset h hp =
    let tail = to_be_bytes port ++ payload in
    let size = length-append front tail in
    let ports = drop-append offset front tail h in
    let rest : drop (offset + 2) (front ++ tail) ≡ payload =
      ap (drop (offset + 2)) (sym (append_assoc front (to_be_bytes port) payload))
      ∙ drop-append (offset + 2) (front ++ to_be_bytes port) payload
          (omega (arith, length-append front (to_be_bytes port))) in
    rw (ports, rest, from_be_bytes-to_be_bytes port hp) (ground (arith, size))

-- The first test of the parser, on four bytes and more.
long_enough : (n : ℕ) → ltb (suc (suc (suc (suc n)))) 4 ≡ false
long_enough n = ground arith

parse_domain_datagram_lem :
    (net : Hosts) (packet : Bytes) (dlen : ℕ)
    → ltb (length packet) (5 + dlen + 2) ≡ false
    → net.is_utf8 (take dlen (drop 5 packet)) ≡ true
    → parse_domain_datagram net packet dlen
      ≡ finish_datagram packet (5 + dlen) (take dlen (drop 5 packet))
unfolding parse_domain_datagram
parse_domain_datagram_lem net packet dlen room utf8 = rw (room, utf8) refl

module _ (net : Hosts) (laws : HostsLaws net) (port : ℕ) (hp : port < 65536) (payload : Bytes) where
  pub parse-v4 :
      (ip host : Bytes)
      → socks5_addr net host ≡ 1 ∷ ip
      → length ip ≡ 4
      → parse_socks5_udp_request net (build_socks5_udp_packet net host port payload)
        ≡ some (record { addr = net.show_v4 ip; port = port; payload = payload })
  unfolding build_socks5_udp_packet parse_socks5_udp_request
  parse-v4 ip host e h =
      let tail = to_be_bytes port ++ payload in
      rw (e, long_enough (length (ip ++ tail)), take-append 4 ip tail h)
        (finish_datagram_lem net (0 ∷ (0 ∷ (0 ∷ (1 ∷ ip)))) (net.show_v4 ip) payload port 8
          (omega (arith, h)) hp)

  pub parse-v6 :
      (ip host : Bytes)
      → socks5_addr net host ≡ 4 ∷ ip
      → length ip ≡ 16
      → parse_socks5_udp_request net (build_socks5_udp_packet net host port payload)
        ≡ some (record { addr = net.show_v6 ip; port = port; payload = payload })
  unfolding build_socks5_udp_packet parse_socks5_udp_request
  parse-v6 ip host e h =
      let tail = to_be_bytes port ++ payload in
      rw (e, long_enough (length (ip ++ tail)), take-append 16 ip tail h)
        (finish_datagram_lem net (0 ∷ (0 ∷ (0 ∷ (4 ∷ ip)))) (net.show_v6 ip) payload port 20
          (omega (arith, h)) hp)

  parse-domain :
      (host : Bytes)
      → socks5_addr net host ≡ 3 ∷ (length host ∷ host)
      → net.is_utf8 host ≡ true
      → parse_socks5_udp_request net (build_socks5_udp_packet net host port payload)
        ≡ some (record { addr = host; port = port; payload = payload })
  unfolding build_socks5_udp_packet parse_socks5_udp_request
  parse-domain host e hu =
      let tail = to_be_bytes port ++ payload in
      let packet : Bytes = 0 ∷ (0 ∷ (0 ∷ (3 ∷ (length host ∷ (host ++ tail))))) in
      let size = length-append host tail in
      let size4 : ltb (length packet) 5 ≡ false = ground arith in
      let room : ltb (length packet) (5 + length host + 2) ≡ false = ground (arith, size) in
      let name = take-append (length host) host tail refl in
      rw (e, long_enough (length (length host ∷ (host ++ tail))), size4)
        (parse_domain_datagram_lem net packet (length host) room (ap net.is_utf8 name ∙ hu)
          ∙ ap (finish_datagram packet (5 + length host)) name
          ∙ finish_datagram_lem net (0 ∷ (0 ∷ (0 ∷ (3 ∷ (length host ∷ host))))) host payload port
              (5 + length host) (omega arith) hp)

  -- A datagram built for the SOCKS5 client parses to the address in canonical form, the port and
  -- the payload, where the port has 16 bits and the address is valid UTF-8 of at most 255 bytes.
  pub parse_socks5_udp_request-build_socks5_udp_packet :
      (host : Bytes)
      → net.is_utf8 host ≡ true
      → length host ≤ 255
      → parse_socks5_udp_request net (build_socks5_udp_packet net host port payload)
        ≡ some (record { addr = socks5_host net host; port = port; payload = payload })
  unfolding socks5_host socks5_addr
  parse_socks5_udp_request-build_socks5_udp_packet host hu hl =
      elim (Option-cases (net.parse_v4 host)) [
        | inr (ip, e) ↦ ground (arith, parse-v4 ip host, laws.v4_octets host ip e)
        | inl e4 ↦ elim (Option-cases (net.parse_v6 host)) [
          | inr (ip, e) ↦ ground (arith, parse-v6 ip host, laws.v6_octets host ip e)
          | inl e6 ↦ ground (arith, parse-domain host)
        ]
      ]
