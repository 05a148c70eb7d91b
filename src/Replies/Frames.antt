-- ===== src/Replies/Frames.antt =====
-- server/src/udp.rs and client/src/local.rs: one reply, as written and as read.
use juicity_rs.Base.{
  ℕ, zero, suc, ◌≡◌, ◌≤◌, ◌<◌, ◌+◌, ◌%◌, refl, sym, ap, ◌∙◌, List, [], ◌∷◌, ◌++◌, map, All, Option,
  none, some, true, false, Bool, Bytes, Result, ok, err, length, take, drop, length-drop, leb,
  to_be_bytes, from_be_bytes, from_be_bytes-to_be_bytes, >>=-eq-ok, append_assoc, append-nil,
  length-append, arith, Bool-cases, inl, inr, if◌then◌else◌, bytes_eq,
}
use juicity_rs.Base
use juicity_rs.Protocol.Wire.{
  Hosts, SocketAddr, sock_v4, sock_v6, v4, v6, IsSocketAddr, show_ip, sock_port,
}
use juicity_rs.Protocol.Reader.{read_exact-append}
use juicity_rs.Protocol.Cached.{
  from_socket_addr, build_trojanc_addr_cached, read_trojanc_addr, host_buffer, host_len_fits,
}
use juicity_rs.Protocol.Cached.RoundTrip.{entry, decoded_octets, read_trojanc_addr-entry}
use juicity_rs.Replies.{
  Datagram, to_canonical, mapped_prefix, response_frame, read_one_udp_response,
}

-- The source has the octets of its family, and the payload's length fits into 16 bits.
pub record IsReply (d : Datagram) : Type 0 where
  pub source : IsSocketAddr d.addr
  pub size : length d.payload ≤ 65535

All-drop : (P : ℕ → Type 0) (n : ℕ) (xs : Bytes) → All P xs → All P (drop n xs)
All-drop P zero xs h = h
All-drop P (suc n) [] h = tt
All-drop P (suc n) (x ∷ xs) (p, ps) = All-drop P n xs ps

pub to_canonical-IsSocketAddr : (a : SocketAddr) → IsSocketAddr a → IsSocketAddr (to_canonical a)
unfolding to_canonical
to_canonical-IsSocketAddr (sock_v4 ip port) h = h
to_canonical-IsSocketAddr (sock_v6 ip port) (h, b, p) =
    elim (Bool-cases (bytes_eq (take 12 ip) mapped_prefix)) [
      | inl mapped ↦ rw mapped (omega (arith, length-drop 12 ip), All-drop _ 12 ip b, p)
      | inr native ↦ rw native (h, b, p)
    ]

module _ (net : Hosts) where
  -- Writing and reading the header of a socket address.
  header_lem :
      (a : SocketAddr) (rest : Bytes)
      → IsSocketAddr a
      → (Base.◌>>=◌
          (build_trojanc_addr_cached [] (from_socket_addr a))
          λ buf. read_trojanc_addr net (buf ++ rest))
        ≡ ok ((show_ip net a, sock_port a), rest)
  unfolding from_socket_addr show_ip sock_port decoded_octets host_len_fits
  header_lem (sock_v4 ip port) rest (h, b, p) =
      let same : entry v4 ip port ≡ from_socket_addr (sock_v4 ip port) =
        ap (λ n. record { addr_type = v4; host_bytes = host_buffer ip; host_len = n; port = port })
          h in
      let fits : host_len_fits v4 (length ip) ≡ true = ground arith in
      ap
        (λ c.
          Base.◌>>=◌ (build_trojanc_addr_cached [] c) λ buf. read_trojanc_addr net (buf ++ rest))
        (sym same)
      ∙ read_trojanc_addr-entry net v4 ip rest port fits p
  header_lem (sock_v6 ip port) rest (h, b, p) =
      let same : entry v6 ip port ≡ from_socket_addr (sock_v6 ip port) =
        ap (λ n. record { addr_type = v6; host_bytes = host_buffer ip; host_len = n; port = port })
          h in
      let fits : host_len_fits v6 (length ip) ≡ true = ground arith in
      ap
        (λ c.
          Base.◌>>=◌ (build_trojanc_addr_cached [] c) λ buf. read_trojanc_addr net (buf ++ rest))
        (sym same)
      ∙ read_trojanc_addr-entry net v6 ip rest port fits p

  -- The frame of a reply, and that the client reads it.
  pub record Framed (d : Datagram) : Type 0 where
    pub frame : Bytes
    pub built : response_frame d ≡ ok frame
    pub nonempty : 0 < length frame
    pub reads :
        (rest : Bytes)
        → read_one_udp_response net (frame ++ rest)
          ≡ ok (
            (show_ip net (to_canonical d.addr), sock_port (to_canonical d.addr), d.payload),
            rest,
          )

  pub reply-Framed : (d : Datagram) → IsReply d → Framed d
  unfolding response_frame read_one_udp_response
  reply-Framed d h =
      let a = to_canonical d.addr in
      let good = to_canonical-IsSocketAddr d.addr h.source in
      let (header, built, reads) =
        >>=-eq-ok (build_trojanc_addr_cached [] (from_socket_addr a)) _ (header_lem a [] good) in
      let header_reads : (rest : Bytes)
          → read_trojanc_addr net (header ++ rest) ≡ ok ((show_ip net a, sock_port a), rest) =
        λ rest.
          sym (ap (λ b. Base.◌>>=◌ b λ buf. read_trojanc_addr net (buf ++ rest)) built)
          ∙ header_lem a rest good in
      let len = to_be_bytes (length d.payload % 65536) in
      let small : length d.payload % 65536 ≡ length d.payload = omega (arith, h.size) in
      record {
        frame = header ++ (len ++ d.payload);
        built = rw built refl;
        nonempty =
            omega (arith, length-append header (len ++ d.payload), length-append len d.payload);
        reads = λ rest.
            rw
              (
                append_assoc header (len ++ d.payload) rest,
                header_reads (len ++ (d.payload ++ rest)),
                read_exact-append 2 len (d.payload ++ rest) refl,
                from_be_bytes-to_be_bytes (length d.payload % 65536) (omega (arith, small, h.size)),
                small,
                read_exact-append (length d.payload) d.payload rest refl,
              )
              refl;
      }
