-- ===== src/Replies.antt =====
-- server/src/udp.rs and client/src/local.rs: the way back of a UDP stream, from the packets that
-- the server's socket receives to those that the SOCKS5 client gets.
pub mod Frames
pub mod Delivery
use juicity_rs.Base.{
  ℕ, zero, suc, ◌%◌, ◌≡◌, List, [], ◌∷◌, ◌++◌, Bytes, Result, ok, err, length, take, drop,
  replicate, bytes_eq, if◌then◌else◌, to_be_bytes, from_be_bytes, Bool, ◌&&◌, ◌==◌,
}
use juicity_rs.Base
use juicity_rs.Protocol.Wire.{Hosts, Error, SocketAddr, sock_v4, sock_v6}
use juicity_rs.Protocol.Reader.{Reader, ◌>>=◌, ◌>>◌, pure, read_exact}
use juicity_rs.Protocol.Writer.{Writer, write_all}
use juicity_rs.Protocol.Writer
use juicity_rs.Protocol.Cached.{from_socket_addr, build_trojanc_addr_cached, read_trojanc_addr}
use juicity_rs.Socks.{build_socks5_udp_packet}

-- The first 12 octets of an IPv4-mapped address.
abbrev pub mapped_prefix : Bytes
mapped_prefix = 0 ∷ 0 ∷ 0 ∷ 0 ∷ 0 ∷ 0 ∷ 0 ∷ 0 ∷ 0 ∷ 0 ∷ 255 ∷ 255 ∷ []

-- `IpAddr::to_canonical`, on a socket address.
unfoldable pub to_canonical : SocketAddr → SocketAddr
to_canonical (sock_v4 ip port) = sock_v4 ip port
to_canonical (sock_v6 ip port) =
    if bytes_eq (take 12 ip) mapped_prefix then sock_v4 (drop 12 ip) port else sock_v6 ip port

-- The address that `send_to_addr` hands to the socket.
unfoldable pub send_target : SocketAddr → Bool → SocketAddr
send_target (sock_v4 ip port) socket_is_ipv6 =
    if socket_is_ipv6 then sock_v6 (mapped_prefix ++ ip) port else sock_v4 ip port
send_target (sock_v6 ip port) socket_is_ipv6 = sock_v6 ip port

-- A packet that a socket received, with its source.
pub record Datagram : Type 0 where
  pub addr : SocketAddr
  pub payload : Bytes

-- One round of `relay_responses`: the frame, in one write; the length is cut to 16 bits (`as u16`).
unfoldable pub response_frame : Datagram → Result Error Bytes
unfolding to_canonical
response_frame d =
    Base.◌>>=◌ (build_trojanc_addr_cached [] (from_socket_addr (to_canonical d.addr)))
      λ frame. ok (frame ++ (to_be_bytes (length d.payload % 65536) ++ d.payload))

abbrev write_frame : Result Error Bytes → Writer
write_frame (ok frame) = write_all frame
write_frame (err e) = λ buf. (buf, err e)

-- `relay_responses` on the packets that come before it is idle.
unfoldable pub relay_responses : List Datagram → Writer
unfolding response_frame
relay_responses [] = write_all []
relay_responses (d ∷ ds) = Writer.◌>>◌ (write_frame (response_frame d)) (relay_responses ds)

-- `read_one_udp_response`: the address, the port and the payload left in the buffer.
unfoldable pub read_one_udp_response : Hosts → Reader (Bytes × ℕ × Bytes)
read_one_udp_response net = do
  addr ← read_trojanc_addr net
  len_buf ← read_exact 2
  payload ← read_exact (from_be_bytes len_buf)
  pure (addr.0, addr.1, payload)

-- The task `reader`: the packets sent to the SOCKS5 client until a response cannot be read. Each
-- round takes at least a byte off the stream.
unfoldable pub reader_task : Hosts → ℕ → Bytes → List Bytes
unfolding read_one_udp_response
reader_task net zero s = []
reader_task net (suc fuel) s = elim (read_one_udp_response net s) [
  | err e ↦ []
  | ok ((addr, port, payload), rest) ↦
      build_socks5_udp_packet net addr port payload ∷ reader_task net fuel rest
]
