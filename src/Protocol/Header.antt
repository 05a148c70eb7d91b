-- ===== src/Protocol/Header.antt =====
-- common/src/protocol.rs: the command head, the authentication payload and the proxy header that
-- opens a stream. The sync and the async readers are the same code.
pub mod RoundTrip
use juicity_rs.Base.{
  ℕ, ◌≡◌, List, [], ◌∷◌, ◌++◌, Option, none, some, Bool, true, false, Bytes, Result, ok, err, ok_or,
  length, contains, leb, get_or, if◌then◌else◌, ◌==◌, is_some, is_empty, to_be_bytes, from_be_bytes,
}
use juicity_rs.Base
use juicity_rs.Protocol.Wire.{
  Hosts, Error, address_parse, unknown_address_type, host_too_long, colon, addr_type_ipv4,
  addr_type_ipv6, addr_type_domain, addr_type_none,
}
use juicity_rs.Protocol.Reader.{Reader, ◌>>=◌, ◌>>◌, pure, bail, read_exact}

unfoldable pub read_command_head : Reader (ℕ × ℕ)
read_command_head = do buf ← read_exact 2; pure (get_or buf 0 0, get_or buf 1 0)

unfoldable pub read_authenticate : Reader (Bytes × Bytes)
read_authenticate = do uuid ← read_exact 16; token ← read_exact 32; pure (uuid, token)

-- The `match addr_type` of `read_proxy_header`.
unfoldable pub read_proxy_addr : Hosts → ℕ → Reader Bytes
read_proxy_addr net addr_type =
    if addr_type == addr_type_ipv4
    then (do ip ← read_exact 4; pure (net.show_v4 ip))
    else if addr_type == addr_type_ipv6
    then (do ip ← read_exact 16; pure (net.show_v6 ip))
    else if addr_type == addr_type_domain
    then (do
      len_buf ← read_exact 1
      name ← read_exact (get_or len_buf 0 0)
      pure (net.from_utf8_lossy name))
    else if addr_type == addr_type_none
    then pure []
    else bail (unknown_address_type addr_type)

unfoldable pub read_port : ℕ → Reader ℕ
read_port addr_type =
    if addr_type == addr_type_none
    then pure 0
    else (do port_buf ← read_exact 2; pure (from_be_bytes port_buf))

unfoldable pub read_proxy_header : Hosts → Reader (ℕ × Bytes × ℕ)
unfolding read_proxy_addr read_port
read_proxy_header net = do
  buf ← read_exact 2
  addr ← read_proxy_addr net (get_or buf 1 0)
  port ← read_port (get_or buf 1 0)
  pure (get_or buf 0 0, addr, port)

unfoldable pub proxy_addr_type : Hosts → Bytes → ℕ
proxy_addr_type net addr =
    if is_empty addr
    then addr_type_none
    else if contains colon addr
    then addr_type_ipv6
    else if is_some (net.parse_v4 addr)
    then addr_type_ipv4
    else addr_type_domain

-- The `match addr_type` of `build_proxy_header`.
unfoldable pub proxy_addr_bytes : Hosts → ℕ → Bytes → Result Error Bytes
proxy_addr_bytes net addr_type addr =
    if addr_type == addr_type_ipv4
    then ok_or (net.parse_v4 addr) address_parse
    else if addr_type == addr_type_ipv6
    then ok_or (net.parse_v6 addr) address_parse
    else if addr_type == addr_type_domain
    then (if leb (length addr) 255
        then ok (length addr ∷ addr)
        else err (host_too_long (length addr)))
    else if addr_type == addr_type_none
    then ok []
    else err (unknown_address_type addr_type)

unfoldable pub build_proxy_header : Hosts → ℕ → Bytes → ℕ → Result Error Bytes
unfolding proxy_addr_type proxy_addr_bytes
build_proxy_header net network addr port =
    let addr_type = proxy_addr_type net addr in
    Base.◌>>=◌ (proxy_addr_bytes net addr_type addr) λ body. ok (
      network
      ∷ addr_type
      ∷ (body ++ (if addr_type == addr_type_none then [] else to_be_bytes port)))
