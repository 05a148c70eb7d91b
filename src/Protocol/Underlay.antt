-- ===== src/Protocol/Underlay.antt =====
-- common/src/protocol.rs: the underlay authentication messages, `[iv(32)][psk(32)][metadata]`.
pub mod RoundTrip
pub mod Failures
use juicity_rs.Base.{
  ℕ, ◌+◌, ◌≡◌, List, [], ◌∷◌, ◌++◌, Option, none, some, Bool, true, false, Bytes, Result, ok, err,
  length, take, drop, replicate, leb, get_or, if◌then◌else◌, ◌==◌, to_be_bytes, from_be_bytes,
}
use juicity_rs.Protocol.Wire.{
  Hosts, Error, domain_length_zero, message_not_supported, host_too_long, invalid_psk_length,
  unknown_metadata_type, addr_type_ipv4, addr_type_ipv6, addr_type_domain, trojan_metadata_type_msg,
  underlay_psk_len, ProxyMetadata, UnderlayAuth, udp,
}
use juicity_rs.Protocol.Reader.{Reader, ◌>>=◌, pure, bail, read_exact}
use juicity_rs.Protocol.Writer
use juicity_rs.Protocol.Writer.{Writer, write_all, check}

-- `Uuid::nil()`
abbrev pub nil_uuid : Bytes
nil_uuid = replicate 16 0

-- The tail of `write_underlay_metadata_async`, for a host that is no address.
unfoldable pub write_domain : Bytes → ℕ → Writer
write_domain host port =
    Writer.◌>>◌ (check (leb (length host) 255) (host_too_long (length host)))
      (write_all (addr_type_domain ∷ (length host ∷ (host ++ to_be_bytes port))))

unfoldable pub write_underlay_metadata : Hosts → ProxyMetadata → Writer
unfolding write_domain
write_underlay_metadata net metadata = elim (net.parse_v4 metadata.hostname) [
  | some ip ↦ write_all (addr_type_ipv4 ∷ (ip ++ to_be_bytes metadata.port))
  | none ↦ elim (net.parse_v6 metadata.hostname) [
    | some ip ↦ write_all (addr_type_ipv6 ∷ (ip ++ to_be_bytes metadata.port))
    | none ↦ write_domain metadata.hostname metadata.port
  ]
]

unfoldable pub write_underlay_auth : Hosts → UnderlayAuth → Writer
write_underlay_auth net auth = Writer.◌>>◌ (write_all auth.iv) (
    Writer.◌>>◌ (check (length auth.psk == underlay_psk_len) (invalid_psk_length (length auth.psk)))
      (Writer.◌>>◌ (write_all auth.psk) (write_underlay_metadata net auth.metadata)))

unfoldable pub read_metadata_v4 : Hosts → Reader (Bytes × ℕ)
read_metadata_v4 net = do
  raw ← read_exact 6
  pure (net.show_v4 (take 4 raw), from_be_bytes (drop 4 raw))

unfoldable pub read_metadata_v6 : Hosts → Reader (Bytes × ℕ)
read_metadata_v6 net = do
  raw ← read_exact 18
  pure (net.show_v6 (take 16 raw), from_be_bytes (drop 16 raw))

unfoldable pub read_domain_and_port : Hosts → ℕ → Reader (Bytes × ℕ)
read_domain_and_port net dlen = do
  raw ← read_exact (dlen + 2)
  pure (net.from_utf8_lossy (take dlen raw), from_be_bytes (drop dlen raw))

unfoldable pub read_metadata_domain : Hosts → Reader (Bytes × ℕ)
unfolding read_domain_and_port
read_metadata_domain net = do
  lb ← read_exact 1
  (if get_or lb 0 0 == 0 then bail domain_length_zero else read_domain_and_port net (get_or lb 0 0))

unfoldable pub read_underlay_metadata : Hosts → Reader (Bytes × ℕ)
unfolding read_metadata_v4 read_metadata_v6 read_metadata_domain
read_underlay_metadata net = do
  typ ← read_exact 1
  (if get_or typ 0 0 == addr_type_ipv4
      then read_metadata_v4 net
      else if get_or typ 0 0 == addr_type_ipv6
      then read_metadata_v6 net
      else if get_or typ 0 0 == addr_type_domain
      then read_metadata_domain net
      else if get_or typ 0 0 == trojan_metadata_type_msg
      then (do cmd ← read_exact 1; bail message_not_supported)
      else bail (unknown_metadata_type (get_or typ 0 0)))

unfoldable pub read_underlay_auth : Hosts → Reader UnderlayAuth
read_underlay_auth net = do
  iv ← read_exact 32
  psk ← read_exact underlay_psk_len
  (hostname, port) ← read_underlay_metadata net
  pure (record {
    iv = iv;
    psk = psk;
    metadata = record { network = udp; hostname = hostname; port = port; uuid = nil_uuid };
    uuid = nil_uuid;
  })
