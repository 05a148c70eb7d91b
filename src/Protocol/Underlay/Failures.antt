-- ===== src/Protocol/Underlay/Failures.antt =====
-- common/src/protocol.rs: what a failed underlay write leaves on the stream, and the host that the
-- two ends treat differently.
use juicity_rs.Base.{
  ℕ, ◌<◌, ◌≡◌, ◌≢◌, ◌⊎◌, [], ◌∷◌, ◌++◌, none, Bytes, ok, err, ==_iff, length, to_be_bytes,
  append_assoc, arith, Option-cases, inl, inr,
}
use juicity_rs.Protocol.Wire.{
  Hosts, HostsLaws, Error, domain_length_zero, addr_type_domain, underlay_psk_len, UnderlayAuth,
  ProxyMetadata,
}
use juicity_rs.Protocol.Reader.{read_exact-append, read_exact_one}
use juicity_rs.Protocol.Underlay.{
  write_underlay_metadata, write_underlay_auth, read_underlay_metadata, read_underlay_auth,
}

module _ (net : Hosts) where
  -- A write that fails has put part of a message on the stream: the salt, if the key has the wrong
  -- length, and the salt and the key, if the host is longer than 255 bytes.
  pub write_underlay_auth-err :
      (auth : UnderlayAuth) (buf buf' : Bytes) (e : Error)
      → write_underlay_auth net auth buf ≡ (buf', err e)
      → ((length auth.psk ≢ underlay_psk_len) × (buf' ≡ buf ++ auth.iv))
        ⊎ ((255 < length auth.metadata.hostname) × (buf' ≡ (buf ++ auth.iv) ++ auth.psk))
  unfolding write_underlay_auth write_underlay_metadata
  write_underlay_auth-err auth buf buf' e h = ground arith

  module _ (laws : HostsLaws net) where
    v6_empty : net.parse_v6 [] ≡ none
    v6_empty = elim (Option-cases (net.parse_v6 [])) [
      | inl e ↦ e
      | inr (ip, e) ↦ cc (laws.v6_colon [] ip e)
    ]

    write_metadata-empty :
        (m : ProxyMetadata) (buf : Bytes)
        → m.hostname ≡ []
        → write_underlay_metadata net m buf
          ≡ (buf ++ (addr_type_domain ∷ (0 ∷ to_be_bytes m.port)), ok tt)
    unfolding write_underlay_metadata
    write_metadata-empty m buf h = ground (arith, laws.v4_empty, v6_empty)

    read_metadata-empty :
        (port : ℕ) (rest : Bytes)
        → read_underlay_metadata net (addr_type_domain ∷ (0 ∷ (to_be_bytes port ++ rest)))
          ≡ err domain_length_zero
    unfolding read_underlay_metadata
    read_metadata-empty port rest = rw (read_exact_one, read_exact_one)

    -- With a salt and a key of 32 bytes, an empty host is written without complaint, and the reader
    -- fails on what was written.
    pub empty_host_unreadable :
        (auth : UnderlayAuth) (buf rest : Bytes)
        → length auth.iv ≡ 32
        → length auth.psk ≡ underlay_psk_len
        → auth.metadata.hostname ≡ []
        → (message : Bytes) × (write_underlay_auth net auth buf ≡ (buf ++ message, ok tt))
          × (read_underlay_auth net (message ++ rest) ≡ err domain_length_zero)
    unfolding write_underlay_auth read_underlay_auth
    empty_host_unreadable auth buf rest hi hk hh =
        let body : Bytes = addr_type_domain ∷ (0 ∷ to_be_bytes auth.metadata.port) in
        (
          auth.iv ++ (auth.psk ++ body),
          rw (
            (==_iff (length auth.psk) underlay_psk_len).1 hk,
            write_metadata-empty auth.metadata ((buf ++ auth.iv) ++ auth.psk) hh,
            append_assoc,
            append_assoc,
          ),
          rw (
            append_assoc,
            append_assoc,
            read_exact-append 32 auth.iv (auth.psk ++ (body ++ rest)) hi,
            read_exact-append 32 auth.psk (body ++ rest) hk,
            read_metadata-empty auth.metadata.port rest,
          ),
        )
