-- ===== src/Relay/Resolving.antt =====
-- server/src/server.rs: the addresses that a stream resolves and remembers.
use native.Mathlib.Decide.{ℕ_discrete}
use juicity_rs.Base.{
  ℕ, ◌≡◌, ◌+◌, refl, List, [], Option, none, some, Bytes, Bytes-discrete, find, put, find-put,
  Option-cases, inl, inr, arith,
}
use juicity_rs.Protocol.Wire.{Hosts, SocketAddr}
use juicity_rs.Relay.{
  Resolved, lookup_port, ports_or_default, lookup_resolved, remember, Remote, resolve_cached,
}

module _ (net : Hosts) (remote : Remote) (target : Bytes → ℕ → SocketAddr) where
  -- Every name resolves, to an address of its own that does not change.
  abbrev pub IsStable : Type 0
  IsStable =
      (n : ℕ) (host : Bytes) (port : ℕ) → remote.resolve n host port ≡ some (target host port)

  -- What the session remembers are these addresses.
  abbrev pub IsFaithful : Resolved → Type 0
  IsFaithful local_resolved =
      (host : Bytes) (port : ℕ) (a : SocketAddr)
      → lookup_resolved host port local_resolved ≡ some a
      → a ≡ target host port

  find-ports_or_default :
      (port : ℕ) (known : Option (List (ℕ × SocketAddr)))
      → find ℕ_discrete port (ports_or_default known) ≡ lookup_port port known
  unfolding lookup_port find ports_or_default
  find-ports_or_default port none = refl
  find-ports_or_default port (some ports) = refl

  remember-IsFaithful :
      (host : Bytes) (port : ℕ) (local_resolved : Resolved)
      → IsFaithful local_resolved
      → IsFaithful (remember host port (target host port) local_resolved)
  unfolding lookup_resolved lookup_port remember
  remember-IsFaithful host port local_resolved faithful h p a e =
      let known = find Bytes-discrete host local_resolved in
      let ports = put ℕ_discrete port (target host port) (ports_or_default known) in
      let outer = find-put Bytes-discrete host h ports local_resolved in
      let inner = find-put ℕ_discrete port p (target host port) (ports_or_default known) in
      let old = find-ports_or_default p known in
      elim (Bytes-discrete host h) [
        | yes same ↦ ground (arith, outer, inner, old, faithful host p a)
        | no other ↦ ground (arith, outer, faithful h p a)
      ]

  pub record Resolves (host : Bytes) (port n : ℕ) (local_resolved : Resolved) : Type 0 where
    pub calls : ℕ
    pub later : Resolved
    pub answer :
        resolve_cached net remote host port n local_resolved ≡ some (target host port, calls, later)
    pub faithful : IsFaithful later

  pub resolves_lem :
      (host : Bytes) (port n : ℕ) (local_resolved : Resolved)
      → IsStable
      → IsFaithful local_resolved
      → Resolves host port n local_resolved
  unfolding resolve_cached
  resolves_lem host port n local_resolved stable faithful =
      elim (Option-cases (lookup_resolved host port local_resolved)) [
        | inl e ↦ record {
          calls = n + 1;
          later = remember host port (target host port) local_resolved;
          answer = rw (e, resolve_cached, stable n host port) refl;
          faithful = remember-IsFaithful host port local_resolved faithful;
        }
        | inr (a, e) ↦ record {
          calls = n;
          later = local_resolved;
          answer = rw (e, resolve_cached, faithful host port a e) refl;
          faithful = faithful;
        }
      ]

  pub empty-IsFaithful : IsFaithful []
  unfolding lookup_resolved lookup_port find
  empty-IsFaithful host port a e = absurd (ground arith)
