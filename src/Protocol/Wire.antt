-- ===== src/Protocol/Wire.antt =====
-- common/src/protocol.rs: the codes, the enums, the errors, and the parts of `std::net` and
-- `std::string` that the encoders call. Bytes are numbers and a `String` is its UTF-8 bytes.
use mathlib.Core.Option
use juicity_rs.Base.{
  leb, is_empty, ℕ, ◌<◌, ◌≡◌, [], Option, none, some, Bool, true, false, Bytes, length, contains,
  All, if◌then◌else◌, ◌==◌, is_some,
}

abbrev pub network_tcp : ℕ
network_tcp = 1

abbrev pub network_udp : ℕ
network_udp = 3

abbrev pub addr_type_ipv4 : ℕ
addr_type_ipv4 = 1

abbrev pub addr_type_ipv6 : ℕ
addr_type_ipv6 = 4

abbrev pub addr_type_domain : ℕ
addr_type_domain = 3

abbrev pub addr_type_none : ℕ
addr_type_none = 255

abbrev pub trojan_metadata_type_msg : ℕ
trojan_metadata_type_msg = 2

abbrev pub underlay_psk_len : ℕ
underlay_psk_len = 32

abbrev pub protocol_version : ℕ
protocol_version = 0

abbrev pub authenticate_type : ℕ
authenticate_type = 0

-- ':'
abbrev pub colon : ℕ
colon = 58

pub data Network : Type 0 where
  tcp udp : Network

unfoldable pub network_to_wire_byte : Network → ℕ
network_to_wire_byte tcp = network_tcp
network_to_wire_byte udp = network_udp

unfoldable pub network_from_wire_byte : ℕ → Option Network
network_from_wire_byte b =
    if b == network_tcp then some tcp else if b == network_udp then some udp else none

-- The failures of the readers and writers, one for each message.
pub data Error : Type 0 where
  unexpected_eof address_parse domain_length_zero message_not_supported invalid_cached_host
        payload_too_long :
      Error
  unresolved dial_failed send_failed invalid_utf8 unknown_user token_mismatch export_failed : Error
  unknown_address_type host_too_long invalid_psk_length unknown_metadata_type unknown_network
        unsupported_version unexpected_command :
      ℕ → Error

-- `str::parse` and `Display` of `Ipv4Addr` and `Ipv6Addr`, over octets, and the two UTF-8
-- decoders.
pub record Hosts : Type 0 where
  pub parse_v4 : Bytes → Option Bytes
  pub show_v4 : Bytes → Bytes
  pub parse_v6 : Bytes → Option Bytes
  pub show_v6 : Bytes → Bytes
  pub from_utf8_lossy : Bytes → Bytes
  pub is_utf8 : Bytes → Bool

-- What their documentation promises: an address has 4 or 16 octets, the text of an address
-- parses back, a `:` stands in the text of an IPv6 address and in no IPv4 address, the empty
-- text is no address, and lossy decoding keeps valid UTF-8.
pub record HostsLaws (net : Hosts) : Type 0 where
  pub v4_octets : (s ip : Bytes) → net.parse_v4 s ≡ some ip → length ip ≡ 4
  pub v6_octets : (s ip : Bytes) → net.parse_v6 s ≡ some ip → length ip ≡ 16
  pub parse_show_v4 :
      (ip : Bytes) → length ip ≡ 4 → All (λ b. b < 256) ip → net.parse_v4 (net.show_v4 ip) ≡ some ip
  pub parse_show_v6 :
      (ip : Bytes)
      → length ip ≡ 16
      → All (λ b. b < 256) ip
      → net.parse_v6 (net.show_v6 ip) ≡ some ip
  pub v4_no_colon : (s ip : Bytes) → net.parse_v4 s ≡ some ip → contains colon s ≡ false
  pub v6_colon : (s ip : Bytes) → net.parse_v6 s ≡ some ip → contains colon s ≡ true
  pub v4_empty : net.parse_v4 [] ≡ none
  pub lossy_utf8 : (s : Bytes) → net.is_utf8 s ≡ true → net.from_utf8_lossy s ≡ s

pub data AddrType : Type 0 where
  v4 v6 domain : AddrType

unfoldable pub from_host : Hosts → Bytes → AddrType
from_host net host =
    if contains colon host then v6 else if is_some (net.parse_v4 host) then v4 else domain

-- `std::net::SocketAddr`: octets and port.
pub data SocketAddr : Type 0 where
  sock_v4 : Bytes → ℕ → SocketAddr
  sock_v6 : Bytes → ℕ → SocketAddr

-- The name under which the peer sees a host that was encoded: the canonical text of an address,
-- a domain as it is; none if no encoding exists.
unfoldable pub canonical_host : Hosts → Bytes → Option Bytes
canonical_host net host =
    if contains colon host
    then Option.map net.show_v6 (net.parse_v6 host)
    else elim (net.parse_v4 host) [
      | some ip ↦ some (net.show_v4 ip)
      | none ↦ if leb (length host) 255 then some host else none
    ]

-- What the header of a datagram conveys: it has no encoding for an empty host.
unfoldable pub datagram_host : Hosts → Bytes → Option Bytes
unfolding canonical_host
datagram_host net host = if is_empty host then none else canonical_host net host

-- The octets of a well-formed socket address.
abbrev pub IsSocketAddr : SocketAddr → Type 0
IsSocketAddr (sock_v4 ip port) = (length ip ≡ 4) × All (λ b. b < 256) ip × (port < 65536)
IsSocketAddr (sock_v6 ip port) = (length ip ≡ 16) × All (λ b. b < 256) ip × (port < 65536)

-- `addr.ip().to_string()` and `addr.port()`
unfoldable pub show_ip : Hosts → SocketAddr → Bytes
show_ip net (sock_v4 ip port) = net.show_v4 ip
show_ip net (sock_v6 ip port) = net.show_v6 ip

unfoldable pub sock_port : SocketAddr → ℕ
sock_port (sock_v4 ip port) = port
sock_port (sock_v6 ip port) = port

-- What a proxy header conveys: an empty host carries no port.
unfoldable pub sent_target : Hosts → Bytes → ℕ → Option (Bytes × ℕ)
unfolding canonical_host
sent_target net addr port =
    if is_empty addr then some ([], 0) else Option.map (λ h. (h, port)) (canonical_host net addr)

unfoldable pub to_wire_byte : AddrType → ℕ
to_wire_byte v4 = addr_type_ipv4
to_wire_byte v6 = addr_type_ipv6
to_wire_byte domain = addr_type_domain

pub record ProxyMetadata : Type 0 where
  pub network : Network
  pub hostname : Bytes
  pub port : ℕ
  pub uuid : Bytes

pub record UnderlayAuth : Type 0 where
  pub iv : Bytes
  pub psk : Bytes
  pub metadata : ProxyMetadata
  pub uuid : Bytes
