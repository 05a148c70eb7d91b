-- ===== src/Tests/Relay.antt =====
-- The delivery theorems at concrete streams.
use juicity_rs.Base.{◌≡◌, refl, [], ◌∷◌, ◌++◌, some, true, Bytes, ok, arith}
use juicity_rs.Protocol.Wire.{SocketAddr, sock_v4, datagram_host}
use juicity_rs.Relay.{Remote, open_udp_stream, handle_stream, udp_relay}
use juicity_rs.Relay.Frames.{Datagram, IsDeliverable, as_sent, send_datagrams}
use juicity_rs.Relay.Delivery.{handle_stream-open_udp_stream}
use juicity_rs.Tests.Addresses.{small_hosts, small_hosts-HostsLaws, parse_dotted}

abbrev host : Bytes
host = b'a' ∷ b'.' ∷ b'b' ∷ []

abbrev address : SocketAddr
address = sock_v4 (1 ∷ 2 ∷ 3 ∷ 4 ∷ []) 53

abbrev remote : Remote
remote = record { dial_udp = λ a. true; resolve = λ n h p. some address; sends = λ a p. true }

abbrev question : Datagram
question = record { host = host; port = 53; payload = 7 ∷ 8 ∷ [] }

abbrev again : Datagram
again = record { host = host; port = 53; payload = [] }

question-IsDeliverable : IsDeliverable small_hosts question
unfolding datagram_host as_sent parse_dotted
question-IsDeliverable = record {
  utf8 = refl;
  encodes = refl;
  port_range = omega arith;
  size = omega arith;
}

again-IsDeliverable : IsDeliverable small_hosts again
unfolding datagram_host as_sent parse_dotted
again-IsDeliverable = record {
  utf8 = refl;
  encodes = refl;
  port_range = omega arith;
  size = omega arith;
}

handle_stream-open_udp_stream_example :
    (opening later : Bytes) × (open_udp_stream small_hosts host 53 (7 ∷ 8 ∷ []) ≡ ok opening)
    × (send_datagrams small_hosts [] (again ∷ []) ≡ ok later)
    × (handle_stream small_hosts remote true (opening ++ later)
        ≡ ok (udp_relay ((address, 7 ∷ 8 ∷ []) ∷ (address, []) ∷ [])))
handle_stream-open_udp_stream_example =
    handle_stream-open_udp_stream small_hosts small_hosts-HostsLaws remote (λ h p. address) true
      question (again ∷ []) question-IsDeliverable (again-IsDeliverable, tt) (λ n h p. refl)
      (λ a p. refl) (λ a. refl) refl
