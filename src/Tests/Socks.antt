-- ===== src/Tests/Socks.antt =====
-- The SOCKS5 theorems at concrete messages.
use juicity_rs.Base.{◌≡◌, refl, [], ◌∷◌, ◌++◌, some, Bytes, ok, replicate, arith}
use juicity_rs.Socks.{
  handshake, build_socks5_response, build_socks5_udp_packet, parse_socks5_udp_request,
}
use juicity_rs.Socks.RoundTrip.{socks5_host, parse_socks5_udp_request-build_socks5_udp_packet}
use juicity_rs.Socks.Handshake.{handshake-build_socks5_response}
use juicity_rs.Tests.Addresses.{small_hosts, small_hosts-HostsLaws, parse_dotted, parse_colon}

abbrev host : Bytes
host = b'a' ∷ b'.' ∷ b'b' ∷ []

parse_socks5_udp_request-build_socks5_udp_packet_example :
    parse_socks5_udp_request small_hosts (build_socks5_udp_packet small_hosts host 53 (9 ∷ []))
    ≡ some (record { addr = host; port = 53; payload = 9 ∷ [] })
unfolding socks5_host parse_dotted parse_colon
parse_socks5_udp_request-build_socks5_udp_packet_example =
    parse_socks5_udp_request-build_socks5_udp_packet small_hosts small_hosts-HostsLaws 53
      (omega arith) (9 ∷ []) host refl (omega arith)

handshake-build_socks5_response_example :
    handshake small_hosts
      ((5 ∷ (1 ∷ (0 ∷ []))) ++ (build_socks5_response small_hosts 1 host 443 ++ (9 ∷ [])))
    ≡ (5 ∷ 0 ∷ [], ok ((1, host, 443), 9 ∷ []))
unfolding socks5_host parse_dotted parse_colon
handshake-build_socks5_response_example =
    handshake-build_socks5_response small_hosts small_hosts-HostsLaws 1 443 host (9 ∷ [])
      (omega arith) (0 ∷ []) refl (omega arith)

abbrev long_name : Bytes
long_name = replicate 256 97
