-- ===== src/Protocol/Header/RoundTrip.antt =====
-- common/src/protocol.rs: `build_proxy_header` against `read_proxy_header`.
use juicity_rs.Base.{
  ℕ, zero, suc, ◌<◌, ◌≡◌, ◌≢◌, refl, sym, ap, ◌∙◌, List, [], ◌∷◌, ◌++◌, Option, none, some, Bool,
  true, false, Bytes, Result, ok, err, length, contains, leb, le→leb, lt→leb-false, leb→le, get_or,
  if◌then◌else◌, ◌==◌, is_some, is_empty, is_empty→nil, to_be_bytes, from_be_bytes,
  from_be_bytes-to_be_bytes, append_assoc, arith, Bool-cases, Option-cases, inl, inr, ◌⊎◌,
}
use juicity_rs.Base
use juicity_rs.Protocol.Wire.{
  Hosts, HostsLaws, Error, colon, sent_target, addr_type_ipv4, addr_type_ipv6, addr_type_domain,
  addr_type_none, address_parse, host_too_long,
}
use juicity_rs.Protocol.Reader.{read_exact-append, read_exact_one, read_exact_two}
use juicity_rs.Protocol.Header.{
  read_proxy_addr, read_proxy_header, proxy_addr_type, proxy_addr_bytes, build_proxy_header,
}

module _ (net : Hosts) where
  read_proxy_addr-v4 :
      (ip rest : Bytes)
      → length ip ≡ 4
      → read_proxy_addr net addr_type_ipv4 (ip ++ rest) ≡ ok (net.show_v4 ip, rest)
  unfolding read_proxy_addr
  read_proxy_addr-v4 ip rest h = rw (read_exact-append 4 ip rest h)

  read_proxy_addr-v6 :
      (ip rest : Bytes)
      → length ip ≡ 16
      → read_proxy_addr net addr_type_ipv6 (ip ++ rest) ≡ ok (net.show_v6 ip, rest)
  unfolding read_proxy_addr
  read_proxy_addr-v6 ip rest h = rw (read_exact-append 16 ip rest h)

  read_proxy_addr-domain :
      (name rest : Bytes)
      → read_proxy_addr net addr_type_domain (length name ∷ (name ++ rest))
        ≡ ok (net.from_utf8_lossy name, rest)
  unfolding read_proxy_addr
  read_proxy_addr-domain name rest =
      rw (read_exact_one, read_exact-append (length name) name rest refl)

  -- A header whose body decodes to `host` is read back whole.
  read_proxy_header-of_body :
      (network t port : ℕ) (body host rest : Bytes)
      → (t == addr_type_none) ≡ false
      → port < 65536
      → ((more : Bytes) → read_proxy_addr net t (body ++ more) ≡ ok (host, more))
      → read_proxy_header net (network ∷ t ∷ ((body ++ to_be_bytes port) ++ rest))
        ≡ ok ((network, host, port), rest)
  unfolding read_proxy_header
  read_proxy_header-of_body network t port body host rest ht hp h =
      rw (read_exact_two, append_assoc, h (to_be_bytes port ++ rest), ht, read_exact_two)
        (ap (λ p. ok ((network, host, p), rest)) (from_be_bytes-to_be_bytes port hp))

  -- Building a header and then reading it.
  unfoldable pub relay_header : ℕ → Bytes → ℕ → Bytes → Result Error ((ℕ × Bytes × ℕ) × Bytes)
  relay_header network addr port rest =
      Base.◌>>=◌ (build_proxy_header net network addr port)
        λ buf. read_proxy_header net (buf ++ rest)

  relay_header-none :
      (network port : ℕ) (rest : Bytes)
      → relay_header network [] port rest ≡ ok ((network, [], 0), rest)
  unfolding relay_header build_proxy_header read_proxy_header
  relay_header-none network port rest = rw read_exact_two

  relay_header-of_body :
      (network t port : ℕ) (addr body host rest : Bytes)
      → proxy_addr_type net addr ≡ t
      → proxy_addr_bytes net t addr ≡ ok body
      → (t == addr_type_none) ≡ false
      → port < 65536
      → ((more : Bytes) → read_proxy_addr net t (body ++ more) ≡ ok (host, more))
      → relay_header network addr port rest ≡ ok ((network, host, port), rest)
  unfolding relay_header build_proxy_header
  relay_header-of_body network t port addr body host rest ht hb hn hp h =
      rw (ht, hb, hn) (read_proxy_header-of_body network t port body host rest hn hp h)

  module _ (laws : HostsLaws net) (network port : ℕ) (addr rest : Bytes) where
    relay_header-v6 :
        (ip : Bytes)
        → is_empty addr ≡ false
        → port < 65536
        → contains colon addr ≡ true
        → net.parse_v6 addr ≡ some ip
        → relay_header network addr port rest ≡ ok ((network, net.show_v6 ip, port), rest)
    unfolding proxy_addr_type proxy_addr_bytes
    relay_header-v6 ip he hp hc e =
        relay_header-of_body network addr_type_ipv6 port addr ip (net.show_v6 ip) rest (rw (he, hc))
          (rw e) refl hp (λ more. read_proxy_addr-v6 ip more (laws.v6_octets addr ip e))

    relay_header-v4 :
        (ip : Bytes)
        → is_empty addr ≡ false
        → port < 65536
        → contains colon addr ≡ false
        → net.parse_v4 addr ≡ some ip
        → relay_header network addr port rest ≡ ok ((network, net.show_v4 ip, port), rest)
    unfolding proxy_addr_type proxy_addr_bytes
    relay_header-v4 ip he hp hc e =
        relay_header-of_body network addr_type_ipv4 port addr ip (net.show_v4 ip) rest
          (rw (he, hc, e)) (rw e) refl hp
          (λ more. read_proxy_addr-v4 ip more (laws.v4_octets addr ip e))

    relay_header-domain :
        is_empty addr ≡ false
        → port < 65536
        → contains colon addr ≡ false
        → net.parse_v4 addr ≡ none
        → leb (length addr) 255 ≡ true
        → net.is_utf8 addr ≡ true
        → relay_header network addr port rest ≡ ok ((network, addr, port), rest)
    unfolding proxy_addr_type proxy_addr_bytes
    relay_header-domain he hp hc e hl hu =
        relay_header-of_body network addr_type_domain port addr (length addr ∷ addr) addr rest
          (rw (he, hc, e)) (rw hl) refl hp
          (λ more.
            rw (read_proxy_addr-domain addr more)
              (ap (λ s. ok (s, more)) (laws.lossy_utf8 addr hu)))

    -- For a valid UTF-8 address and a 16-bit port, where `sent_target` names what goes over the
    -- wire, building a header and reading it back gives the network, that address and that port,
    -- and leaves the rest of the stream.
    pub relay_header-sent :
        (target : Bytes × ℕ)
        → port < 65536
        → net.is_utf8 addr ≡ true
        → sent_target net addr port ≡ some target
        → relay_header network addr port rest ≡ ok ((network, target.0, target.1), rest)
    unfolding sent_target
    relay_header-sent target hp hu h = elim (Bool-cases (is_empty addr)) [
      | inl empty ↦ ground (arith, is_empty→nil addr empty, relay_header-none network port rest)
      | inr he ↦ elim (Bool-cases (contains colon addr)) [
        | inl hc ↦ elim (Option-cases (net.parse_v6 addr)) [
          | inl e ↦ ground arith
          | inr (ip, e) ↦ ground (arith, relay_header-v6 ip he hp hc e)
        ]
        | inr hc ↦ elim (Option-cases (net.parse_v4 addr)) [
          | inl e ↦ ground (arith, relay_header-domain he hp hc e)
          | inr (ip, e) ↦ ground (arith, relay_header-v4 ip he hp hc e)
        ]
      ]
    ]

    -- Where `sent_target` names nothing, because the address has a colon and is not IPv6 or is
    -- longer than 255 bytes, building or reading the header fails.
    pub relay_header-refused :
        sent_target net addr port ≡ none
        → (e : Error) × (relay_header network addr port rest ≡ err e)
    unfolding sent_target relay_header build_proxy_header
    relay_header-refused h = elim (Bool-cases (is_empty addr)) [
      | inl empty ↦ absurd (ground arith)
      | inr he ↦ elim (Bool-cases (contains colon addr)) [
        | inl hc ↦ (address_parse, ground arith)
        | inr hc ↦ (host_too_long (length addr), ground arith)
      ]
    ]
