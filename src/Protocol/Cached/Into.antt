-- ===== src/Protocol/Cached/Into.antt =====
-- common/src/protocol.rs: the reader of a datagram's header that reuses a buffer.
use juicity_rs.Base.{
  ℕ, ◌≡◌, Bytes, Result, ok, err, refl, from_be_bytes, get_or, ◌∙◌, ltb, ◌==◌, Bool, true, false,
  Bool-cases, inl, inr, if◌then◌else◌,
}
use juicity_rs.Base
use juicity_rs.Protocol.Wire.{
  Hosts, Error, addr_type_ipv4, addr_type_ipv6, addr_type_domain, domain_length_zero,
}
use juicity_rs.Protocol.Reader.{read_exact, pure, bail, ◌>>=◌, ◌>>◌}
use juicity_rs.Protocol.Cached.{
  read_trojanc_host, read_trojanc_addr, read_trojanc_addr_into, read_host_into, read_port_into,
  read_octets_into, read_domain_into,
}

abbrev Into : Type 0
Into = Bytes × Result Error (ℕ × Bytes)

abbrev joined : Into → Result Error ((Bytes × ℕ) × Bytes)
joined r = Base.◌>>=◌ r.1 λ (port, rest). ok ((r.0, port), rest)

abbrev with_port : Bytes → Result Error (Bytes × Bytes) → Result Error ((Bytes × ℕ) × Bytes)
with_port host r = Base.◌>>=◌ r λ (port_buf, rest). ok ((host, from_be_bytes port_buf), rest)

port_agrees : (host s : Bytes) → with_port host (read_exact 2 s) ≡ joined (read_port_into host s)
unfolding read_port_into
port_agrees host s =
    elim (read_exact 2 s)
      as (λ r.
        with_port host r
        ≡ joined (elim r [
          | ok (port_buf, rest) ↦ (host, ok (from_be_bytes port_buf, rest))
          | err e ↦ (host, err e)
        ])) [ ok x ↦ refl | err e ↦ refl ]

abbrev with_host : Result Error (Bytes × Bytes) → Result Error ((Bytes × ℕ) × Bytes)
with_host r = Base.◌>>=◌ r λ (host, rest). with_port host (read_exact 2 rest)

octets_agree :
    (show : Bytes → Bytes) (n : ℕ) (old s : Bytes)
    → with_host (Base.◌>>=◌ (read_exact n s) λ (octets, rest). ok (show octets, rest))
      ≡ joined (read_octets_into show n old s)
unfolding read_octets_into
octets_agree show n old s =
    elim (read_exact n s)
      as (λ r.
        with_host (Base.◌>>=◌ r λ (octets, rest). ok (show octets, rest))
        ≡ joined (elim r [
          | ok (octets, rest) ↦ read_port_into (show octets) rest
          | err e ↦ (old, err e)
        ])) [ ok (octets, rest) ↦ port_agrees (show octets) rest | err e ↦ refl ]

abbrev named : Hosts → ℕ → Bytes → Result Error (Bytes × Bytes)
named net len rest =
    ((if ltb 0 len then pure {A = Unit {0}} tt else bail domain_length_zero)
        >> (read_exact len >>= λ name. pure (net.from_utf8_lossy name)))
      rest

named_agrees :
    (net : Hosts) (len : ℕ) (old rest : Bytes)
    → with_host (named net len rest)
      ≡ joined (
          if ltb 0 len
          then read_octets_into net.from_utf8_lossy len old rest
          else (old, err domain_length_zero))
named_agrees net len old rest = elim (Bool-cases (ltb 0 len)) [
  | inl e ↦ rw e (octets_agree net.from_utf8_lossy len old rest)
  | inr e ↦ rw e refl
]

domain_agrees :
    (net : Hosts) (old s : Bytes)
    → with_host (read_trojanc_host net addr_type_domain s) ≡ joined (read_domain_into net old s)
unfolding read_trojanc_host read_domain_into
domain_agrees net old s =
    elim (read_exact 1 s)
      as (λ r.
        with_host (Base.◌>>=◌ r λ (len_buf, rest). named net (get_or len_buf 0 0) rest)
        ≡ joined (elim r [
          | ok (len_buf, rest) ↦
              if ltb 0 (get_or len_buf 0 0)
              then read_octets_into net.from_utf8_lossy (get_or len_buf 0 0) old rest
              else (old, err domain_length_zero)
          | err e ↦ (old, err e)
        ])) [ ok (len_buf, rest) ↦ named_agrees net (get_or len_buf 0 0) old rest | err e ↦ refl ]

host_agrees :
    (net : Hosts) (addr_type : ℕ) (old s : Bytes)
    → with_host (read_trojanc_host net addr_type s) ≡ joined (read_host_into net addr_type old s)
unfolding read_host_into read_trojanc_host
host_agrees net addr_type old s = elim (Bool-cases (addr_type == addr_type_ipv4)) [
  | inl v4 ↦ rw v4 (octets_agree net.show_v4 4 old s)
  | inr v4 ↦ elim (Bool-cases (addr_type == addr_type_ipv6)) [
    | inl v6 ↦ rw (v4, v6) (octets_agree net.show_v6 16 old s)
    | inr v6 ↦ elim (Bool-cases (addr_type == addr_type_domain)) [
      | inl d ↦ rw (v4, v6, d) (domain_agrees net old s)
      | inr d ↦ rw (v4, v6, d) refl
    ]
  ]
]

-- `read_trojanc_addr_into_async` succeeds, fails and leaves the stream exactly as
-- `read_trojanc_addr_async` does, and where it succeeds its buffer holds the host that the other
-- returns, whatever it held before.
pub read_trojanc_addr_into-agrees :
    (net : Hosts) (old s : Bytes)
    → read_trojanc_addr net s ≡ (
        Base.◌>>=◌
          (read_trojanc_addr_into net old s).1
          λ (port, rest). ok (((read_trojanc_addr_into net old s).0, port), rest))
unfolding read_trojanc_addr read_trojanc_addr_into
read_trojanc_addr_into-agrees net old s =
    elim (read_exact 1 s)
      as (λ r.
        (Base.◌>>=◌ r
          λ (addr_type, rest). with_host (read_trojanc_host net (get_or addr_type 0 0) rest))
        ≡ joined (elim r [
          | ok (addr_type, rest) ↦ read_host_into net (get_or addr_type 0 0) old rest
          | err e ↦ (old, err e)
        ])) [
          | ok (addr_type, rest) ↦ host_agrees net (get_or addr_type 0 0) old rest
          | err e ↦ refl
        ]
