-- ===== src/Protocol/Cached.antt =====
-- common/src/protocol.rs: the cached address of a UDP session, and the trojanc address header of
-- each datagram.
pub mod RoundTrip
pub mod Into
use juicity_rs.Base.{
  ℕ, ◌-◌, ◌≡◌, List, [], ◌∷◌, ◌++◌, Option, none, some, Bool, true, false, ◌&&◌, Bytes, Result, ok,
  err, ok_or, length, take, replicate, leb, ltb, get_or, if◌then◌else◌, ◌==◌, to_be_bytes,
  from_be_bytes, ensure,
}
use juicity_rs.Base
use juicity_rs.Protocol.Wire.{
  Hosts, Error, domain_length_zero, invalid_cached_host, unknown_address_type, AddrType, v4, v6,
  domain, from_host, to_wire_byte, SocketAddr, sock_v4, sock_v6, addr_type_ipv4, addr_type_ipv6,
  addr_type_domain,
}
use juicity_rs.Protocol.Reader.{Reader, ◌>>=◌, ◌>>◌, pure, bail, read_exact}

pub record CachedAddr : Type 0 where
  pub addr_type : AddrType
  pub host_bytes : Bytes
  pub host_len : ℕ
  pub port : ℕ

-- `[0u8; 255]` with the host copied to its front.
unfoldable pub host_buffer : Bytes → Bytes
host_buffer host = host ++ replicate (255 - length host) 0

-- The octets and the length that `from_host_port` stores; zero marks an invalid host.
unfoldable pub cached_octets : Hosts → AddrType → Bytes → Bytes × ℕ
unfolding host_buffer
cached_octets net v4 host = elim (net.parse_v4 host) [
  | some ip ↦ (host_buffer ip, 4)
  | none ↦ (host_buffer [], 0)
]
cached_octets net v6 host = elim (net.parse_v6 host) [
  | some ip ↦ (host_buffer ip, 16)
  | none ↦ (host_buffer [], 0)
]
cached_octets net domain host =
    if leb (length host) 255 && ltb 0 (length host)
    then (host_buffer host, length host)
    else (host_buffer [], 0)

unfoldable pub from_host_port : Hosts → Bytes → ℕ → CachedAddr
unfolding cached_octets from_host
from_host_port net host port =
    let addr_type = from_host net host in
    let (host_bytes, host_len) = cached_octets net addr_type host in
    record { addr_type = addr_type; host_bytes = host_bytes; host_len = host_len; port = port }

unfoldable pub from_socket_addr : SocketAddr → CachedAddr
unfolding host_buffer
from_socket_addr (sock_v4 ip port) = record {
  addr_type = v4;
  host_bytes = host_buffer ip;
  host_len = 4;
  port = port;
}
from_socket_addr (sock_v6 ip port) = record {
  addr_type = v6;
  host_bytes = host_buffer ip;
  host_len = 16;
  port = port;
}

unfoldable pub host_len_fits : AddrType → ℕ → Bool
host_len_fits v4 n = n == 4
host_len_fits v6 n = n == 16
host_len_fits domain n = ltb 0 n

unfoldable pub cached_body : AddrType → Bytes → ℕ → Bytes
cached_body v4 host_bytes host_len = take 4 host_bytes
cached_body v6 host_bytes host_len = take 16 host_bytes
cached_body domain host_bytes host_len = host_len ∷ take host_len host_bytes

-- Appends to the buffer, or leaves it as it was.
unfoldable pub build_trojanc_addr_cached : Bytes → CachedAddr → Result Error Bytes
unfolding host_len_fits cached_body to_wire_byte
build_trojanc_addr_cached buf cached =
    Base.◌>>=◌ (ensure (host_len_fits cached.addr_type cached.host_len) invalid_cached_host) λ _.
      ok (
        buf
        ++ (to_wire_byte cached.addr_type
            ∷ (cached_body cached.addr_type cached.host_bytes cached.host_len
                ++ to_be_bytes cached.port)))

unfoldable pub build_trojanc_addr : Hosts → Bytes → ℕ → Result Error Bytes
unfolding build_trojanc_addr_cached from_host_port
build_trojanc_addr net addr port = build_trojanc_addr_cached [] (from_host_port net addr port)

-- The `match addr_type` of `read_trojanc_addr_async`.
unfoldable pub read_trojanc_host : Hosts → ℕ → Reader Bytes
read_trojanc_host net addr_type =
    if addr_type == addr_type_ipv4
    then (do ip ← read_exact 4; pure (net.show_v4 ip))
    else if addr_type == addr_type_ipv6
    then (do ip ← read_exact 16; pure (net.show_v6 ip))
    else if addr_type == addr_type_domain
    then (do
      len_buf ← read_exact 1
      (if ltb 0 (get_or len_buf 0 0) then pure {A = Unit {0}} tt else bail domain_length_zero)
      name ← read_exact (get_or len_buf 0 0)
      pure (net.from_utf8_lossy name))
    else bail (unknown_address_type addr_type)

unfoldable pub read_trojanc_addr : Hosts → Reader (Bytes × ℕ)
unfolding read_trojanc_host
read_trojanc_addr net = do
  addr_type ← read_exact 1
  addr ← read_trojanc_host net (get_or addr_type 0 0)
  port_buf ← read_exact 2
  pure (addr, from_be_bytes port_buf)

-- `read_trojanc_addr_into_async`: the host buffer after the call, whatever the outcome, and the
-- port.
unfoldable pub read_port_into : Bytes → Bytes → Bytes × Result Error (ℕ × Bytes)
read_port_into host s = elim (read_exact 2 s) [
  | ok (port_buf, rest) ↦ (host, ok (from_be_bytes port_buf, rest))
  | err e ↦ (host, err e)
]

-- The octets of the host, which replace what the buffer held.
unfoldable pub read_octets_into :
    (Bytes → Bytes) → ℕ → Bytes → Bytes → Bytes × Result Error (ℕ × Bytes)
unfolding read_port_into
read_octets_into show n host s = elim (read_exact n s) [
  | ok (octets, rest) ↦ read_port_into (show octets) rest
  | err e ↦ (host, err e)
]

unfoldable pub read_domain_into : Hosts → Bytes → Bytes → Bytes × Result Error (ℕ × Bytes)
unfolding read_octets_into
read_domain_into net host s = elim (read_exact 1 s) [
  | ok (len_buf, rest) ↦
      if ltb 0 (get_or len_buf 0 0)
      then read_octets_into net.from_utf8_lossy (get_or len_buf 0 0) host rest
      else (host, err domain_length_zero)
  | err e ↦ (host, err e)
]

unfoldable pub read_host_into : Hosts → ℕ → Bytes → Bytes → Bytes × Result Error (ℕ × Bytes)
unfolding read_octets_into read_domain_into
read_host_into net addr_type host s =
    if addr_type == addr_type_ipv4
    then read_octets_into net.show_v4 4 host s
    else if addr_type == addr_type_ipv6
    then read_octets_into net.show_v6 16 host s
    else if addr_type == addr_type_domain
    then read_domain_into net host s
    else (host, err (unknown_address_type addr_type))

unfoldable pub read_trojanc_addr_into : Hosts → Bytes → Bytes → Bytes × Result Error (ℕ × Bytes)
unfolding read_host_into
read_trojanc_addr_into net host s = elim (read_exact 1 s) [
  | ok (addr_type, rest) ↦ read_host_into net (get_or addr_type 0 0) host rest
  | err e ↦ (host, err e)
]
