-- ===== src/Relay/Frames.antt =====
-- client/src/client.rs and server/src/server.rs: one frame of a stream, as written and as read.
use juicity_rs.Base.{
  ℕ, zero, suc, ◌≡◌, ◌≢◌, ◌≤◌, ◌<◌, ◌+◌, refl, sym, ap, ◌∙◌, List, [], ◌∷◌, ◌++◌, map, All, Option,
  none, some, Bool, true, false, ◌&&◌, Bytes, Result, ok, err, length, leb, le→leb, if◌then◌else◌,
  ◌==◌, Bytes-discrete, find, put, find-put, to_be_bytes, from_be_bytes, from_be_bytes-to_be_bytes,
  is_empty, Bool-cases, Option-cases, inl, inr, >>=-eq-ok, arith, append_assoc, append-nil,
  length-append,
}
use juicity_rs.Base
use juicity_rs.Protocol.Wire.{Hosts, HostsLaws, Error, network_udp, datagram_host, sent_target}
use juicity_rs.Protocol.Reader.{read_exact, read_exact-append}
use juicity_rs.Protocol.Header.{build_proxy_header, read_proxy_header}
use juicity_rs.Protocol.Header.RoundTrip.{relay_header, relay_header-sent}
use juicity_rs.Protocol.Cached.{
  from_host_port, build_trojanc_addr, read_trojanc_addr, read_trojanc_addr_into,
}
use juicity_rs.Protocol.Cached.RoundTrip.{relay_datagram_header, relay_datagram_header-sent}
use juicity_rs.Protocol.Cached.Into.{read_trojanc_addr_into-agrees}
use juicity_rs.Relay.{udp_packet_len, send_udp_datagram, read_payload}

pub record Datagram : Type 0 where
  pub host : Bytes
  pub port : ℕ
  pub payload : Bytes

-- The host as the server reads it.
unfoldable pub as_sent : Hosts → Bytes → Bytes
as_sent net host = elim (datagram_host net host) [ some sent ↦ sent | none ↦ [] ]

-- The host is valid UTF-8 and has an encoding, and port and length fit into 16 bits.
pub record IsDeliverable (net : Hosts) (d : Datagram) : Type 0 where
  pub utf8 : net.is_utf8 d.host ≡ true
  pub encodes : datagram_host net d.host ≡ some (as_sent net d.host)
  pub port_range : d.port < 65536
  pub size : length d.payload ≤ 65535

-- The client's later datagrams, one write after the other, with one scratch buffer.
abbrev pub send_datagrams : Hosts → Bytes → List Datagram → Result Error Bytes
send_datagrams net addr_buf [] = ok []
send_datagrams net addr_buf (d ∷ ds) =
    let sent = send_udp_datagram (from_host_port net d.host d.port) d.payload addr_buf in
    let rest = send_datagrams net sent.0 ds in
    Base.◌>>=◌ sent.1 λ written. Base.◌>>=◌ rest λ more. ok (written ++ more)

pub reads_payload :
    (payload rest : Bytes)
    → length payload ≤ 65535
    → read_payload (to_be_bytes (length payload) ++ (payload ++ rest)) ≡ ok (payload, rest)
unfolding read_payload
reads_payload payload rest h = rw (
  read_exact-append 2 (to_be_bytes (length payload)) (payload ++ rest) refl,
  from_be_bytes-to_be_bytes (length payload) (omega arith),
  read_exact-append (length payload) payload rest refl,
)

pub udp_packet_len_lem :
    (payload : Bytes)
    → length payload ≤ 65535
    → udp_packet_len payload ≡ ok (to_be_bytes (length payload))
unfolding udp_packet_len
udp_packet_len_lem payload h = rw (le→leb (length payload) 65535 h) refl

module _ (net : Hosts) where
  -- The header of a datagram, and that the server reads it.
  pub record Headed (d : Datagram) : Type 0 where
    pub header : Bytes
    pub built : build_trojanc_addr net d.host d.port ≡ ok header
    pub nonempty : 0 < length header
    pub reads :
        (rest : Bytes)
        → read_trojanc_addr net (header ++ rest) ≡ ok ((as_sent net d.host, d.port), rest)

  -- The header of a stream, and that the server reads it.
  pub record Opened (d : Datagram) : Type 0 where
    pub header : Bytes
    pub built : build_proxy_header net network_udp d.host d.port ≡ ok header
    pub reads :
        (rest : Bytes)
        → read_proxy_header net (header ++ rest)
          ≡ ok ((network_udp, as_sent net d.host, d.port), rest)

  pub reads_into :
      (old s host : Bytes) (port : ℕ) (rest : Bytes)
      → read_trojanc_addr net s ≡ ok ((host, port), rest)
      → ((read_trojanc_addr_into net old s).0 ≡ host)
        × ((read_trojanc_addr_into net old s).1 ≡ ok (port, rest))
  reads_into old s host port rest h =
      let ((p, r), e, e') =
        >>=-eq-ok (read_trojanc_addr_into net old s).1 _
          (sym (read_trojanc_addr_into-agrees net old s) ∙ h) in
      (cc, cc)

module _ (net : Hosts) (laws : HostsLaws net) where
  reads-nonempty :
      (header rest : Bytes) {r : (Bytes × ℕ) × Bytes}
      → read_trojanc_addr net (header ++ []) ≡ ok r
      → 0 < length header
  unfolding read_trojanc_addr read_exact
  reads-nonempty [] rest h = absurd (ground arith)
  reads-nonempty (b ∷ bs) rest h = omega arith

  pub deliverable-Headed : (d : Datagram) → IsDeliverable net d → Headed net d
  unfolding relay_datagram_header
  deliverable-Headed d h =
      let sent : (rest : Bytes)
          → relay_datagram_header net d.host d.port rest ≡ ok ((as_sent net d.host, d.port), rest) =
        λ rest.
          relay_datagram_header-sent net laws d.host rest d.port (as_sent net d.host) h.port_range
            h.utf8 h.encodes in
      let (header, built, reads) = >>=-eq-ok (build_trojanc_addr net d.host d.port) _ (sent []) in
      record {
        header = header;
        built = built;
        nonempty = reads-nonempty header [] reads;
        reads = λ rest.
            sym (ap (λ b. Base.◌>>=◌ b λ buf. read_trojanc_addr net (buf ++ rest)) built)
            ∙ sent rest;
      }

  sent_target-deliverable :
      (d : Datagram)
      → IsDeliverable net d
      → sent_target net d.host d.port ≡ some (as_sent net d.host, d.port)
  unfolding sent_target datagram_host
  sent_target-deliverable d h = elim (Bool-cases (is_empty d.host)) [
    | inl empty ↦ absurd (ground (arith, h.encodes))
    | inr other ↦ ground (arith, h.encodes)
  ]

  pub deliverable-Opened : (d : Datagram) → IsDeliverable net d → Opened net d
  unfolding relay_header
  deliverable-Opened d h =
      let sent : (rest : Bytes)
          → relay_header net network_udp d.host d.port rest
            ≡ ok ((network_udp, as_sent net d.host, d.port), rest) =
        λ rest.
          relay_header-sent net laws network_udp d.port d.host rest (as_sent net d.host, d.port)
            h.port_range h.utf8 (sent_target-deliverable d h) in
      let (header, built, reads) =
        >>=-eq-ok (build_proxy_header net network_udp d.host d.port) _ (sent []) in
      record {
        header = header;
        built = built;
        reads = λ rest.
            sym (ap (λ b. Base.◌>>=◌ b λ buf. read_proxy_header net (buf ++ rest)) built)
            ∙ sent rest;
      }
