-- ===== src/Protocol/Cached/RoundTrip.antt =====
-- common/src/protocol.rs: trojanc address headers, written from a cached address and read back.
use juicity_rs.Base.{
  ◌∙◌, is_empty, is_empty→nil, nonempty→pos, ==_iff, ℕ, ◌-◌, ◌<◌, ◌≡◌, refl, ap, List, [], ◌∷◌,
  ◌++◌, Option, none, some, Bool, true, false, Bytes, Result, ok, err, length, take, take-append,
  replicate, contains, leb, get_or, to_be_bytes, from_be_bytes, from_be_bytes-to_be_bytes,
  append_assoc, arith, Bool-cases, Option-cases, inl, inr, lt→ltb, le→leb, ltb, ◌&&◌,
}
use juicity_rs.Base
use juicity_rs.Protocol.Wire.{
  Hosts, HostsLaws, Error, colon, AddrType, v4, v6, domain, SocketAddr, sock_v4, sock_v6,
  invalid_cached_host, IsSocketAddr, show_ip, sock_port, datagram_host,
}
use juicity_rs.Protocol.Reader.{read_exact-append, read_exact_one, read_exact_two}
use juicity_rs.Protocol.Cached.{
  CachedAddr, host_buffer, from_host_port, from_socket_addr, host_len_fits,
  build_trojanc_addr_cached, build_trojanc_addr, read_trojanc_addr,
}

-- A cache entry that stores `octets` in front of its buffer.
abbrev pub entry : AddrType → Bytes → ℕ → CachedAddr
entry t octets port = record {
  addr_type = t;
  host_bytes = host_buffer octets;
  host_len = length octets;
  port = port;
}

module _ (net : Hosts) where
  unfoldable pub decoded_octets : AddrType → Bytes → Bytes
  decoded_octets v4 octets = net.show_v4 octets
  decoded_octets v6 octets = net.show_v6 octets
  decoded_octets domain octets = net.from_utf8_lossy octets

  pub read_trojanc_addr-entry :
      (t : AddrType) (octets rest : Bytes) (port : ℕ)
      → host_len_fits t (length octets) ≡ true
      → port < 65536
      → (Base.◌>>=◌
          (build_trojanc_addr_cached [] (entry t octets port))
          λ buf. read_trojanc_addr net (buf ++ rest))
        ≡ ok ((decoded_octets t octets, port), rest)
  unfolding build_trojanc_addr_cached read_trojanc_addr host_buffer decoded_octets
  read_trojanc_addr-entry v4 octets rest port hl hp =
      let h = (==_iff (length octets) 4).0 hl in
      rw
        (
          hl,
          take-append 4 octets (replicate (255 - length octets) 0) h,
          append_assoc,
          read_exact_one,
          read_exact-append 4 octets (to_be_bytes port ++ rest) h,
          read_exact_two,
        )
        (ap (λ p. ok ((net.show_v4 octets, p), rest)) (from_be_bytes-to_be_bytes port hp))
  read_trojanc_addr-entry v6 octets rest port hl hp =
      let h = (==_iff (length octets) 16).0 hl in
      rw
        (
          hl,
          take-append 16 octets (replicate (255 - length octets) 0) h,
          append_assoc,
          read_exact_one,
          read_exact-append 16 octets (to_be_bytes port ++ rest) h,
          read_exact_two,
        )
        (ap (λ p. ok ((net.show_v6 octets, p), rest)) (from_be_bytes-to_be_bytes port hp))
  read_trojanc_addr-entry domain octets rest port hl hp =
      rw
        (
          hl,
          take-append (length octets) octets (replicate (255 - length octets) 0) refl,
          append_assoc,
          read_exact_one,
          read_exact_one,
          hl,
          read_exact-append (length octets) octets (to_be_bytes port ++ rest) refl,
          read_exact_two,
        )
        (ap (λ p. ok ((net.from_utf8_lossy octets, p), rest)) (from_be_bytes-to_be_bytes port hp))

  -- `from_host_port` for each kind of host that it accepts.
  module _ (host : Bytes) (port : ℕ) where
    from_host_port-v6 :
        (ip : Bytes)
        → contains colon host ≡ true
        → net.parse_v6 host ≡ some ip
        → length ip ≡ 16
        → from_host_port net host port ≡ entry v6 ip port
    unfolding from_host_port
    from_host_port-v6 ip hc e h = ground arith

    from_host_port-v4 :
        (ip : Bytes)
        → contains colon host ≡ false
        → net.parse_v4 host ≡ some ip
        → length ip ≡ 4
        → from_host_port net host port ≡ entry v4 ip port
    unfolding from_host_port
    from_host_port-v4 ip hc e h = ground arith

    from_host_port-domain :
        contains colon host ≡ false
        → net.parse_v4 host ≡ none
        → leb (length host) 255 ≡ true
        → ltb 0 (length host) ≡ true
        → from_host_port net host port ≡ entry domain host port
    unfolding from_host_port
    from_host_port-domain hc e hl hp = ground arith

  -- For a socket address of the right sizes, `from_host_port` on its printed IP and its port gives
  -- what `from_socket_addr` gives without text.
  pub from_host_port-show_ip :
      (laws : HostsLaws net) (a : SocketAddr)
      → IsSocketAddr a
      → from_host_port net (show_ip net a) (sock_port a) ≡ from_socket_addr a
  unfolding show_ip sock_port from_socket_addr
  from_host_port-show_ip laws (sock_v4 ip port) (h, b, p) =
      let e = laws.parse_show_v4 ip h b in
      from_host_port-v4 (net.show_v4 ip) port ip (laws.v4_no_colon _ ip e) e h ∙ ground arith
  from_host_port-show_ip laws (sock_v6 ip port) (h, b, p) =
      let e = laws.parse_show_v6 ip h b in
      from_host_port-v6 (net.show_v6 ip) port ip (laws.v6_colon _ ip e) e h ∙ ground arith

  -- Building the header of a datagram and then reading it.
  unfoldable pub relay_datagram_header : Bytes → ℕ → Bytes → Result Error ((Bytes × ℕ) × Bytes)
  unfolding build_trojanc_addr
  relay_datagram_header host port rest =
      Base.◌>>=◌ (build_trojanc_addr net host port) λ buf. read_trojanc_addr net (buf ++ rest)

  relay_datagram_header-entry :
      (t : AddrType) (host octets rest : Bytes) (port : ℕ)
      → from_host_port net host port ≡ entry t octets port
      → host_len_fits t (length octets) ≡ true
      → port < 65536
      → relay_datagram_header host port rest ≡ ok ((decoded_octets t octets, port), rest)
  unfolding relay_datagram_header
  relay_datagram_header-entry t host octets rest port e hl hp =
      let unfolded : build_trojanc_addr net host port
          ≡ build_trojanc_addr_cached [] (entry t octets port) =
        unfold build_trojanc_addr in ap (build_trojanc_addr_cached []) e in
      rw unfolded (read_trojanc_addr-entry t octets rest port hl hp)

  module _ (laws : HostsLaws net) (host rest : Bytes) (port : ℕ) where
    -- For a valid UTF-8 host and a 16-bit port, where `datagram_host` names what goes over the
    -- wire, building a datagram's header and reading it back gives that host and the port, and
    -- leaves the rest of the stream.
    pub relay_datagram_header-sent :
        (sent : Bytes)
        → port < 65536
        → net.is_utf8 host ≡ true
        → datagram_host net host ≡ some sent
        → relay_datagram_header host port rest ≡ ok ((sent, port), rest)
    unfolding datagram_host decoded_octets host_len_fits
    relay_datagram_header-sent sent hp hu h = elim (Bool-cases (is_empty host)) [
      | inl empty ↦ absurd (ground arith)
      | inr he ↦ elim (Bool-cases (contains colon host)) [
        | inl hc ↦ elim (Option-cases (net.parse_v6 host)) [
          | inl e ↦ absurd (ground arith)
          | inr (ip, e) ↦
              let l = laws.v6_octets host ip e in
              ground (
                arith,
                relay_datagram_header-entry v6 host ip rest port
                    (from_host_port-v6 host port ip hc e l) (rw l) hp,
              )
        ]
        | inr hc ↦ elim (Option-cases (net.parse_v4 host)) [
          | inl e ↦ elim (Bool-cases (leb (length host) 255)) [
            | inl hl ↦
                let pos = lt→ltb 0 (length host) (nonempty→pos host he) in
                ground (
                  arith,
                  relay_datagram_header-entry domain host host rest port
                      (from_host_port-domain host port hc e hl pos) pos hp,
                  laws.lossy_utf8 host hu,
                )
            | inr hl ↦ absurd (ground arith)
          ]
          | inr (ip, e) ↦
              let l = laws.v4_octets host ip e in
              ground (
                arith,
                relay_datagram_header-entry v4 host ip rest port
                    (from_host_port-v4 host port ip hc e l) (rw l) hp,
              )
        ]
      ]
    ]

    relay_datagram_header-empty :
        net.parse_v4 [] ≡ none → relay_datagram_header [] port rest ≡ err invalid_cached_host
    unfolding relay_datagram_header
    relay_datagram_header-empty e = rw e

    -- A host that `datagram_host` refuses (empty, too long, or with a colon and not IPv6) fails with
    -- the cached host's error.
    pub relay_datagram_header-refused :
        datagram_host net host ≡ none
        → relay_datagram_header host port rest ≡ err invalid_cached_host
    unfolding datagram_host relay_datagram_header
    relay_datagram_header-refused h = elim (Bool-cases (is_empty host)) [
      | inl empty ↦ cc (is_empty→nil host empty, relay_datagram_header-empty laws.v4_empty)
      | inr he ↦ ground arith
    ]
