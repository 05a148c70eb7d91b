-- ===== src/Socks/Handshake.antt =====
-- client/src/local.rs: a greeting and a request are read.
use juicity_rs.Base.{
  ℕ, ◌≡◌, ◌≤◌, ◌<◌, refl, [], ◌∷◌, ◌++◌, Bytes, ok, length, true, to_be_bytes,
  from_be_bytes-to_be_bytes, Option-cases, inl, inr, arith, append_assoc,
}
use juicity_rs.Protocol.Wire.{Hosts, HostsLaws}
use juicity_rs.Protocol.Reader.{read_exact-append, read_exact_one, read_exact_two}
use juicity_rs.Socks.{
  read_methods, read_target, read_ip, read_domain, read_request, handshake, socks5_addr,
  build_socks5_response,
}
use juicity_rs.Socks.RoundTrip.{socks5_host}

read_ip_lem :
    (n : ℕ) (show : Bytes → Bytes) (ip rest : Bytes) (port : ℕ)
    → length ip ≡ n
    → port < 65536
    → read_ip n show (ip ++ (to_be_bytes port ++ rest)) ≡ ok ((show ip, port), rest)
unfolding read_ip
read_ip_lem n show ip rest port h hp = rw (
  read_exact-append n ip (to_be_bytes port ++ rest) h,
  read_exact-append 2 (to_be_bytes port) rest refl,
  from_be_bytes-to_be_bytes port hp,
)

read_methods_lem :
    (methods request : Bytes)
    → read_methods (5 ∷ (length methods ∷ (methods ++ request))) ≡ ok (methods, request)
unfolding read_methods
read_methods_lem methods request = rw (
  read_exact_two 5 (length methods) (methods ++ request),
  read_exact-append (length methods) methods request refl,
)

module _ (net : Hosts) (laws : HostsLaws net) (cmd port : ℕ) (host rest : Bytes)
    (hp : port < 65536) where
  read_domain_lem :
      net.is_utf8 host ≡ true
      → read_domain net (length host ∷ (host ++ (to_be_bytes port ++ rest)))
        ≡ ok ((host, port), rest)
  unfolding read_domain
  read_domain_lem hu = rw (
    read_exact_one (length host) (host ++ (to_be_bytes port ++ rest)),
    read_exact-append (length host) host (to_be_bytes port ++ rest) refl,
    read_exact-append 2 (to_be_bytes port) rest refl,
    hu,
    from_be_bytes-to_be_bytes port hp,
  )

  read_request_lem :
      (t : ℕ) (body name : Bytes)
      → socks5_addr net host ≡ t ∷ body
      → read_target net t (body ++ (to_be_bytes port ++ rest)) ≡ ok ((name, port), rest)
      → read_request net (build_socks5_response net cmd host port ++ rest)
        ≡ ok ((cmd, name, port), rest)
  unfolding read_request build_socks5_response
  read_request_lem t body name e h = rw (
    e,
    append_assoc body (to_be_bytes port) rest,
    read_exact-append 4 (5 ∷ (cmd ∷ (0 ∷ (t ∷ [])))) (body ++ (to_be_bytes port ++ rest)) refl,
    h,
  )

  read_request-build_socks5_response :
      net.is_utf8 host ≡ true
      → length host ≤ 255
      → read_request net (build_socks5_response net cmd host port ++ rest)
        ≡ ok ((cmd, socks5_host net host, port), rest)
  unfolding socks5_host socks5_addr read_target
  read_request-build_socks5_response hu hl = elim (Option-cases (net.parse_v4 host)) [
    | inr (ip, e) ↦ ground (
      arith,
      read_request_lem 1 ip (net.show_v4 ip),
      read_ip_lem 4 net.show_v4 ip rest port (laws.v4_octets host ip e) hp,
    )
    | inl e4 ↦ elim (Option-cases (net.parse_v6 host)) [
      | inr (ip, e) ↦ ground (
        arith,
        read_request_lem 4 ip (net.show_v6 ip),
        read_ip_lem 16 net.show_v6 ip rest port (laws.v6_octets host ip e) hp,
      )
      | inl e6 ↦ ground (arith, read_request_lem 3 (length host ∷ host) host, read_domain_lem hu)
    ]
  ]

  -- A SOCKS5 client's greeting, with any methods, and its request, which has the layout of a reply
  -- with the command in place of the code, are answered by "no authentication" and give the
  -- command, the address in canonical form and the port, for a UTF-8 address of at most 255 bytes
  -- and a 16-bit port; what follows stays on the stream.
  pub handshake-build_socks5_response :
      (methods : Bytes)
      → net.is_utf8 host ≡ true
      → length host ≤ 255
      → handshake net
          ((5 ∷ (length methods ∷ methods)) ++ (build_socks5_response net cmd host port ++ rest))
        ≡ (5 ∷ 0 ∷ [], ok ((cmd, socks5_host net host, port), rest))
  unfolding handshake
  handshake-build_socks5_response methods hu hl =
      let request = build_socks5_response net cmd host port ++ rest in
      ground (arith, read_methods_lem methods request, read_request-build_socks5_response hu hl)
