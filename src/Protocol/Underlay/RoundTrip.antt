-- ===== src/Protocol/Underlay/RoundTrip.antt =====
-- common/src/protocol.rs: an underlay authentication message that was written is read back.
use juicity_rs.Base.{
  ℕ, ◌+◌, ◌<◌, ◌≡◌, refl, ap, ◌∷◌, ◌++◌, Option, none, some, true, false, Bytes, ok, length,
  length-append, take-append, drop-append, leb, if◌then◌else◌, ◌==◌, ==_iff, to_be_bytes,
  from_be_bytes-to_be_bytes, append_assoc, arith, Bool-cases, Option-cases, inl, inr, is_empty,
  nonempty→pos,
}
use juicity_rs.Protocol.Wire.{
  Hosts, HostsLaws, addr_type_ipv4, addr_type_ipv6, addr_type_domain, underlay_psk_len,
  ProxyMetadata, UnderlayAuth, udp,
}
use juicity_rs.Protocol.Reader.{read_exact-append, read_exact_one}
use juicity_rs.Protocol.Underlay.{
  nil_uuid, write_underlay_metadata, write_underlay_auth, read_underlay_metadata,
  read_underlay_auth,
}

module _ (net : Hosts) where
  -- The host that the reader gets: the canonical text of an address, a domain as it is.
  unfoldable pub underlay_host : Bytes → Option Bytes
  underlay_host host = elim (net.parse_v4 host) [
    | some ip ↦ some (net.show_v4 ip)
    | none ↦ elim (net.parse_v6 host) [
      | some ip ↦ some (net.show_v6 ip)
      | none ↦ if is_empty host then none else if leb (length host) 255 then some host else none
    ]
  ]

  -- The bytes of the metadata, when there is nothing wrong with them.
  unfoldable pub metadata_bytes : Bytes → ℕ → Bytes
  metadata_bytes host port = elim (net.parse_v4 host) [
    | some ip ↦ addr_type_ipv4 ∷ (ip ++ to_be_bytes port)
    | none ↦ elim (net.parse_v6 host) [
      | some ip ↦ addr_type_ipv6 ∷ (ip ++ to_be_bytes port)
      | none ↦ addr_type_domain ∷ (length host ∷ (host ++ to_be_bytes port))
    ]
  ]

  read_metadata-v4 :
      (ip rest : Bytes) (port : ℕ)
      → length ip ≡ 4
      → port < 65536
      → read_underlay_metadata net (addr_type_ipv4 ∷ ((ip ++ to_be_bytes port) ++ rest))
        ≡ ok ((net.show_v4 ip, port), rest)
  unfolding read_underlay_metadata
  read_metadata-v4 ip rest port h hp =
      rw
        (
          read_exact_one,
          read_exact-append 6 (ip ++ to_be_bytes port) rest
              (omega (arith, length-append ip (to_be_bytes port))),
          take-append 4 ip (to_be_bytes port) h,
          drop-append 4 ip (to_be_bytes port) h,
        )
        (ap (λ p. ok ((net.show_v4 ip, p), rest)) (from_be_bytes-to_be_bytes port hp))

  read_metadata-v6 :
      (ip rest : Bytes) (port : ℕ)
      → length ip ≡ 16
      → port < 65536
      → read_underlay_metadata net (addr_type_ipv6 ∷ ((ip ++ to_be_bytes port) ++ rest))
        ≡ ok ((net.show_v6 ip, port), rest)
  unfolding read_underlay_metadata
  read_metadata-v6 ip rest port h hp =
      rw
        (
          read_exact_one,
          read_exact-append 18 (ip ++ to_be_bytes port) rest
              (omega (arith, length-append ip (to_be_bytes port))),
          take-append 16 ip (to_be_bytes port) h,
          drop-append 16 ip (to_be_bytes port) h,
        )
        (ap (λ p. ok ((net.show_v6 ip, p), rest)) (from_be_bytes-to_be_bytes port hp))

  read_metadata-domain :
      (host rest : Bytes) (port : ℕ)
      → (length host == 0) ≡ false
      → port < 65536
      → read_underlay_metadata net
          (addr_type_domain ∷ (length host ∷ ((host ++ to_be_bytes port) ++ rest)))
        ≡ ok ((net.from_utf8_lossy host, port), rest)
  unfolding read_underlay_metadata
  read_metadata-domain host rest port h hp =
      rw
        (
          read_exact_one,
          read_exact_one,
          h,
          read_exact-append (length host + 2) (host ++ to_be_bytes port) rest
              (omega (arith, length-append host (to_be_bytes port))),
          take-append (length host) host (to_be_bytes port) refl,
          drop-append (length host) host (to_be_bytes port) refl,
        )
        (ap (λ p. ok ((net.from_utf8_lossy host, p), rest)) (from_be_bytes-to_be_bytes port hp))

  write_metadata-sent :
      (sent buf : Bytes) (m : ProxyMetadata)
      → underlay_host m.hostname ≡ some sent
      → write_underlay_metadata net m buf ≡ (buf ++ metadata_bytes m.hostname m.port, ok tt)
  unfolding underlay_host write_underlay_metadata metadata_bytes
  write_metadata-sent sent buf m h = ground arith

  module _ (host : Bytes) (port : ℕ) where
    read_metadata-sent :
        (laws : HostsLaws net) (sent rest : Bytes)
        → port < 65536
        → net.is_utf8 host ≡ true
        → underlay_host host ≡ some sent
        → read_underlay_metadata net (metadata_bytes host port ++ rest) ≡ ok ((sent, port), rest)
    unfolding underlay_host metadata_bytes
    read_metadata-sent laws sent rest hp hu h = elim (Option-cases (net.parse_v4 host)) [
      | inr (ip, e) ↦ ground (arith, read_metadata-v4 ip rest port (laws.v4_octets host ip e) hp)
      | inl e ↦ elim (Option-cases (net.parse_v6 host)) [
        | inr (ip, e') ↦
            ground (arith, read_metadata-v6 ip rest port (laws.v6_octets host ip e') hp)
        | inl e' ↦ elim (Bool-cases (is_empty host)) [
          | inl empty ↦ absurd (ground arith)
          | inr he ↦
              let pos = nonempty→pos host he in
              let nonzero : (length host == 0) ≡ false = ground arith in
              ground
                (arith, read_metadata-domain host rest port nonzero hp, laws.lossy_utf8 host hu)
        ]
      ]
    ]

  -- A message whose fields have their fixed lengths and whose host has an encoding.
  pub record IsSendable (auth : UnderlayAuth) (sent : Bytes) : Type 0 where
    pub iv_len : length auth.iv ≡ 32
    pub psk_len : length auth.psk ≡ underlay_psk_len
    pub port_range : auth.metadata.port < 65536
    pub utf8 : net.is_utf8 auth.metadata.hostname ≡ true
    pub host : underlay_host auth.metadata.hostname ≡ some sent

  -- What the other end makes of it: a UDP target and no user.
  abbrev pub received : UnderlayAuth → Bytes → UnderlayAuth
  received auth sent = record {
    iv = auth.iv;
    psk = auth.psk;
    metadata = record {
      network = udp;
      hostname = sent;
      port = auth.metadata.port;
      uuid = nil_uuid;
    };
    uuid = nil_uuid;
  }

  unfoldable pub auth_bytes : UnderlayAuth → Bytes
  unfolding metadata_bytes
  auth_bytes auth =
      auth.iv ++ (auth.psk ++ metadata_bytes auth.metadata.hostname auth.metadata.port)

  pub write_underlay_auth-sent :
      (auth : UnderlayAuth) (sent buf : Bytes)
      → IsSendable auth sent
      → write_underlay_auth net auth buf ≡ (buf ++ auth_bytes auth, ok tt)
  unfolding write_underlay_auth auth_bytes
  write_underlay_auth-sent auth sent buf s =
      let hp = (==_iff (length auth.psk) underlay_psk_len).1 s.psk_len in
      rw (
        hp,
        write_metadata-sent sent ((buf ++ auth.iv) ++ auth.psk) auth.metadata s.host,
        append_assoc,
        append_assoc,
      )

  pub read_underlay_auth-sent :
      (laws : HostsLaws net) (auth : UnderlayAuth) (sent rest : Bytes)
      → IsSendable auth sent
      → read_underlay_auth net (auth_bytes auth ++ rest) ≡ ok (received auth sent, rest)
  unfolding read_underlay_auth auth_bytes
  read_underlay_auth-sent laws auth sent rest s =
      let body = metadata_bytes auth.metadata.hostname auth.metadata.port in
      rw (
        append_assoc,
        append_assoc,
        read_exact-append 32 auth.iv (auth.psk ++ (body ++ rest)) s.iv_len,
        read_exact-append 32 auth.psk (body ++ rest) s.psk_len,
        read_metadata-sent auth.metadata.hostname auth.metadata.port laws sent rest s.port_range
            s.utf8 s.host,
      )

  -- For a sendable message (32-byte salt and key, 16-bit port, a UTF-8 host that `underlay_host`
  -- accepts), what the writer appends the reader takes off the front of the stream, with the host
  -- as it goes over the wire.
  pub underlay_auth_round_trip :
      (laws : HostsLaws net) (auth : UnderlayAuth) (sent buf rest : Bytes)
      → IsSendable auth sent
      → (message : Bytes) × (write_underlay_auth net auth buf ≡ (buf ++ message, ok tt))
        × (read_underlay_auth net (message ++ rest) ≡ ok (received auth sent, rest))
  underlay_auth_round_trip laws auth sent buf rest s = (
    auth_bytes auth,
    write_underlay_auth-sent auth sent buf s,
    read_underlay_auth-sent laws auth sent rest s,
  )
