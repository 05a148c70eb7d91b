-- ===== src/Tests/Protocol.antt =====
-- The protocol's theorems at concrete messages.
use juicity_rs.Base.{
  ℕ, ◌<◌, ◌≡◌, ◌⊎◌, ◌≢◌, refl, List, [], ◌∷◌, ◌++◌, some, none, Bytes, Result, ok, err, length,
  replicate, All, arith,
}
use juicity_rs.Base
use juicity_rs.Protocol.Wire.{UnderlayAuth, udp, datagram_host}
use juicity_rs.Protocol.Cached.{read_trojanc_addr, read_trojanc_addr_into}
use juicity_rs.Protocol.Cached.RoundTrip.{relay_datagram_header, relay_datagram_header-sent}
use juicity_rs.Protocol.Cached.Into.{read_trojanc_addr_into-agrees}
use juicity_rs.Protocol.Underlay.{write_underlay_auth, read_underlay_auth, nil_uuid}
use juicity_rs.Protocol.Underlay.RoundTrip.{received, underlay_host, underlay_auth_round_trip}
use juicity_rs.Tests.Addresses.{parse_colon, small_hosts, small_hosts-HostsLaws, parse_dotted}

abbrev host : Bytes
host = b'a' ∷ b'.' ∷ b'b' ∷ []

relay_datagram_header-sent_example :
    relay_datagram_header small_hosts host 53 (9 ∷ []) ≡ ok ((host, 53), 9 ∷ [])
unfolding datagram_host parse_dotted
relay_datagram_header-sent_example =
    relay_datagram_header-sent small_hosts small_hosts-HostsLaws host (9 ∷ []) 53 host (omega arith)
      refl refl

read_trojanc_addr_into-agrees_example :
    read_trojanc_addr small_hosts (3 ∷ 1 ∷ 97 ∷ 0 ∷ 80 ∷ 5 ∷ []) ≡ (
      Base.◌>>=◌
        (read_trojanc_addr_into small_hosts host (3 ∷ 1 ∷ 97 ∷ 0 ∷ 80 ∷ 5 ∷ [])).1
        λ (port, rest). ok (
          ((read_trojanc_addr_into small_hosts host (3 ∷ 1 ∷ 97 ∷ 0 ∷ 80 ∷ 5 ∷ [])).0, port),
          rest,
        ))
read_trojanc_addr_into-agrees_example =
    read_trojanc_addr_into-agrees small_hosts host (3 ∷ 1 ∷ 97 ∷ 0 ∷ 80 ∷ 5 ∷ [])

abbrev message : Bytes → UnderlayAuth
message hostname = record {
  iv = replicate 32 1;
  psk = replicate 32 2;
  metadata = record { network = udp; hostname = hostname; port = 53; uuid = nil_uuid };
  uuid = nil_uuid;
}

underlay_auth_round_trip_example :
    (m : Bytes) × (write_underlay_auth small_hosts (message host) [] ≡ ([] ++ m, ok tt))
    × (read_underlay_auth small_hosts (m ++ (9 ∷ []))
        ≡ ok (received small_hosts (message host) host, 9 ∷ []))
unfolding underlay_host
underlay_auth_round_trip_example =
    underlay_auth_round_trip small_hosts small_hosts-HostsLaws (message host) host [] (9 ∷ [])
      (record {
        iv_len = refl;
        psk_len = refl;
        port_range = omega arith;
        utf8 = refl;
        host = unfold parse_dotted parse_colon in refl;
      })
