-- ===== src/Tests/Session.antt =====
-- The session theorems at concrete messages.
use juicity_rs.Base.{
  refl, List, [], ◌∷◌, ◌++◌, some, Bytes, replicate, arith, Bytes-discrete, decide_bytes, find,
}
use juicity_rs.Protocol.Wire.{UnderlayAuth, udp}
use juicity_rs.Protocol.Underlay.{nil_uuid}
use juicity_rs.Protocol.Underlay.RoundTrip.{IsSendable, underlay_host}
use juicity_rs.Protocol.Reader.{read_exact}
use juicity_rs.Protocol.Header.{read_command_head, read_authenticate}
use juicity_rs.Session.{Exporter, handle_auth}
use juicity_rs.Session.Authenticated.{Accepted, handle_auth-eq-ok}
use juicity_rs.Tests.Addresses.{small_hosts, parse_dotted, parse_colon}

abbrev uuid : Bytes
uuid = replicate 16 1

abbrev token : Bytes
token = replicate 32 9

abbrev exporter : Exporter
exporter = λ label context. some token

abbrev users : List (Bytes × Bytes)
users = (replicate 16 0, []) ∷ (uuid, 5 ∷ []) ∷ []

handle_auth-eq-ok_example :
    Accepted exporter users (0 ∷ (0 ∷ (uuid ++ (token ++ (8 ∷ []))))) uuid (8 ∷ [])
unfolding handle_auth read_command_head read_authenticate read_exact find Bytes-discrete
    decide_bytes
handle_auth-eq-ok_example =
    handle_auth-eq-ok exporter users (0 ∷ (0 ∷ (uuid ++ (token ++ (8 ∷ []))))) uuid (8 ∷ []) refl

abbrev message : UnderlayAuth
message = record {
  iv = replicate 32 1;
  psk = replicate 32 2;
  metadata = record { network = udp; hostname = b'a' ∷ []; port = 53; uuid = nil_uuid };
  uuid = nil_uuid;
}

message-IsSendable : IsSendable small_hosts message (b'a' ∷ [])
unfolding underlay_host parse_dotted parse_colon
message-IsSendable = record {
  iv_len = refl;
  psk_len = refl;
  port_range = omega arith;
  utf8 = refl;
  host = refl;
}
