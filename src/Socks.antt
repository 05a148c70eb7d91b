-- ===== src/Socks.antt =====
-- client/src/local.rs: the messages of SOCKS5 that the client's inbound reads and writes.
pub mod RoundTrip
pub mod Handshake
pub mod Truncated
use juicity_rs.Base.{
  ℕ, ◌≡◌, ◌+◌, ◌%◌, List, [], ◌∷◌, ◌++◌, Option, none, some, Bool, true, false, not, Bytes, Result,
  ok, err, length, ltb, take, drop, if◌then◌else◌, ◌==◌, get_or, to_be_bytes, from_be_bytes,
}
use juicity_rs.Base
use juicity_rs.Protocol.Wire.{Hosts, Error, invalid_utf8, unknown_address_type}
use juicity_rs.Protocol.Reader.{Reader, ◌>>=◌, ◌>>◌, pure, bail, read_exact}

-- The greeting: the version, the number of methods, and the methods.
unfoldable pub read_methods : Reader Bytes
read_methods = do buf ← read_exact 2; read_exact (get_or buf 1 0)

-- `String::from_utf8`
unfoldable pub from_utf8 : Hosts → Bytes → Reader Bytes
from_utf8 net name = if net.is_utf8 name then pure name else bail invalid_utf8

unfoldable pub read_ip : ℕ → (Bytes → Bytes) → Reader (Bytes × ℕ)
read_ip n show = do
  ip ← read_exact n
  port_buf ← read_exact 2
  pure (show ip, from_be_bytes port_buf)

unfoldable pub read_domain : Hosts → Reader (Bytes × ℕ)
unfolding from_utf8
read_domain net = do
  len_buf ← read_exact 1
  name ← read_exact (get_or len_buf 0 0)
  port_buf ← read_exact 2
  domain ← from_utf8 net name
  pure (domain, from_be_bytes port_buf)

-- The `match addr_type` of `handle_socks5`.
unfoldable pub read_target : Hosts → ℕ → Reader (Bytes × ℕ)
unfolding read_ip read_domain
read_target net addr_type =
    if addr_type == 1
    then read_ip 4 net.show_v4
    else if addr_type == 3
    then read_domain net
    else if addr_type == 4
    then read_ip 16 net.show_v6
    else bail (unknown_address_type addr_type)

-- The request: command, host and port.
unfoldable pub read_request : Hosts → Reader (ℕ × Bytes × ℕ)
unfolding read_target
read_request net = do
  req ← read_exact 4
  target ← read_target net (get_or req 3 0)
  pure (get_or req 1 0, target.0, target.1)

-- The handshake of `handle_socks5`: what was written, and the request.
unfoldable pub handshake : Hosts → Bytes → Bytes × Result Error ((ℕ × Bytes × ℕ) × Bytes)
unfolding read_methods read_request
handshake net s = elim (read_methods s) [
  | err e ↦ ([], err e)
  | ok (methods, rest) ↦ (5 ∷ 0 ∷ [], read_request net rest)
]

-- The address of a reply or of a datagram, its type first; the length of a domain is cut to a
-- byte (`as u8`).
unfoldable pub socks5_addr : Hosts → Bytes → Bytes
socks5_addr net host = elim (net.parse_v4 host) [
  | some ip ↦ 1 ∷ ip
  | none ↦ elim (net.parse_v6 host) [ some ip ↦ 4 ∷ ip | none ↦ 3 ∷ (length host % 256 ∷ host) ]
]

unfoldable pub build_socks5_response : Hosts → ℕ → Bytes → ℕ → Bytes
unfolding socks5_addr
build_socks5_response net reply host port =
    5 ∷ (reply ∷ (0 ∷ (socks5_addr net host ++ to_be_bytes port)))

pub record UdpOutboundDatagram : Type 0 where
  pub addr : Bytes
  pub port : ℕ
  pub payload : Bytes

-- The port and the payload from `offset` on, behind an address that has been read.
unfoldable pub finish_datagram : Bytes → ℕ → Bytes → Option UdpOutboundDatagram
finish_datagram packet offset addr =
    if ltb (length packet) (offset + 2)
    then none
    else some (record {
      addr = addr;
      port = from_be_bytes (take 2 (drop offset packet));
      payload = drop (offset + 2) packet;
    })

unfoldable pub parse_domain_datagram : Hosts → Bytes → ℕ → Option UdpOutboundDatagram
unfolding finish_datagram
parse_domain_datagram net packet dlen =
    if ltb (length packet) (5 + dlen + 2)
    then none
    else if net.is_utf8 (take dlen (drop 5 packet))
    then finish_datagram packet (5 + dlen) (take dlen (drop 5 packet))
    else none

unfoldable pub parse_socks5_udp_request : Hosts → Bytes → Option UdpOutboundDatagram
unfolding finish_datagram parse_domain_datagram
parse_socks5_udp_request net packet =
    let atyp = get_or packet 3 0 in
    if ltb (length packet) 4
    then none
    else if not (get_or packet 2 0 == 0)
    then none
    else if atyp == 1
    then finish_datagram packet 8 (net.show_v4 (take 4 (drop 4 packet)))
    else if atyp == 3
    then (if ltb (length packet) 5
        then none
        else parse_domain_datagram net packet (get_or packet 4 0))
    else if atyp == 4
    then finish_datagram packet 20 (net.show_v6 (take 16 (drop 4 packet)))
    else none

unfoldable pub build_socks5_udp_packet : Hosts → Bytes → ℕ → Bytes → Bytes
unfolding socks5_addr
build_socks5_udp_packet net addr port payload =
    0 ∷ (0 ∷ (0 ∷ (socks5_addr net addr ++ (to_be_bytes port ++ payload))))
