-- ===== src/Tests/Replies.antt =====
-- The way back at concrete replies.
use juicity_rs.Base.{◌≡◌, refl, [], ◌∷◌, ◌++◌, map, Bytes, ok, length, arith, All}
use juicity_rs.Protocol.Wire.{sock_v4, sock_v6}
use juicity_rs.Socks.{parse_socks5_udp_request}
use juicity_rs.Replies.{Datagram, mapped_prefix, relay_responses, reader_task}
use juicity_rs.Replies.Frames.{IsReply}
use juicity_rs.Replies.Delivery.{as_received, reader_task-relay_responses}
use juicity_rs.Tests.Addresses.{small_hosts, small_hosts-HostsLaws}

abbrev octets : Bytes
octets = 1 ∷ 2 ∷ 3 ∷ 4 ∷ []

abbrev native : Datagram
native = record { addr = sock_v4 octets 53; payload = 7 ∷ 8 ∷ [] }

-- From an IPv4-mapped source.
abbrev mapped : Datagram
mapped = record { addr = sock_v6 (mapped_prefix ++ octets) 53; payload = [] }

both-IsReply : All IsReply (native ∷ mapped ∷ [])
both-IsReply = (
  record {
    source = (refl, (omega arith, (omega arith, (omega arith, (omega arith, tt)))), omega arith);
    size = omega arith;
  },
  (
    record {
      source = (
        refl,
        (
          omega arith,
          (
            omega arith,
            (
              omega arith,
              (
                omega arith,
                (
                  omega arith,
                  (
                    omega arith,
                    (
                      omega arith,
                      (
                        omega arith,
                        (
                          omega arith,
                          (
                            omega arith,
                            (
                              omega arith,
                              (
                                omega arith,
                                (omega arith, (omega arith, (omega arith, (omega arith, tt)))),
                              ),
                            ),
                          ),
                        ),
                      ),
                    ),
                  ),
                ),
              ),
            ),
          ),
        ),
        omega arith,
      );
      size = omega arith;
    },
    tt,
  ),
)

reader_task-relay_responses_example :
    (written : Bytes) × (relay_responses (native ∷ mapped ∷ []) [] ≡ ([] ++ written, ok tt))
    × (map (parse_socks5_udp_request small_hosts) (reader_task small_hosts (length written) written)
        ≡ map (as_received small_hosts small_hosts-HostsLaws) (native ∷ mapped ∷ []))
reader_task-relay_responses_example =
    reader_task-relay_responses small_hosts small_hosts-HostsLaws (native ∷ mapped ∷ []) []
      both-IsReply
