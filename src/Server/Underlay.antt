-- ===== src/Server/Underlay.antt =====
-- server/src/server.rs: the sessions of underlay packets, `run_underlay_packet_loop` and
-- `handle_non_quic_underlay_packet`, one packet at a time. Socket addresses, sockets and relay
-- tasks are numbers, and a dial target is the host and the port that `target_addr` joins. How the
-- calls of several packets interleave is in Server.InFlight and Server.Pool.
pub mod Opened
pub mod Loop
pub mod Bound
pub mod Delivery
pub mod Admission
use native.Mathlib.Decide.{ℕ_discrete}
use juicity_rs.Base.{
  ℕ, suc, ◌+◌, ◌<◌, ◌≡◌, List, [], ◌∷◌, ◌++◌, Option, none, some, Bool, true, false, not, ◌&&◌,
  Bytes, Result, ok, err, length, take, drop, ltb, if◌then◌else◌, ◌==◌, find, put, del, retain,
  Bytes-discrete,
}
use juicity_rs.Protocol.Wire.{ProxyMetadata, UnderlayAuth}
use juicity_rs.Crypto.{Aead, salt_len, decrypt_in_place, derive_subkey}
use juicity_rs.Server.InFlight.{InFlight, Phase, finished, consume}

-- `cipher` is the subkey of its `UnderlayCipher`.
pub record UnderlaySession : Type 0 where
  pub target : Bytes × ℕ
  pub cipher : Bytes
  pub relay_abort : Option ℕ

-- An endpoint of the pool: its socket and what it was opened for.
pub record Endpoint : Type 0 where
  pub socket : ℕ
  pub target : Bytes × ℕ

-- A running task that takes the packets of a socket back to a client.
pub record Relay : Type 0 where
  pub id : ℕ
  pub socket : ℕ
  pub source : ℕ
  pub cipher : Bytes

-- The table of authentications, the sessions, the endpoint pool, the relay tasks, the number of
-- sockets and tasks so far, and what was sent, through which endpoint.
pub record Underlay : Type 0 where
  pub in_flight : InFlight
  pub sessions : List (ℕ × UnderlaySession)
  pub udp_pool : List (ℕ × Endpoint)
  pub relays : List Relay
  pub fresh : ℕ
  pub sent : List (Endpoint × Bytes)

-- What becomes of a packet: dropped as too short, without a permit, not to be opened, or without
-- an authentication; blocked; or forwarded, unless there is no endpoint or the socket refuses it.
pub data Verdict : Type 0 where
  too_short no_permit invalid_packet missing_auth blocked forwarded no_endpoint send_failed :
      Verdict

-- What the surroundings answer: whether a socket can be opened for a target, and whether it takes
-- a packet.
pub record World : Type 0 where
  pub opens : ℕ → Bytes × ℕ → Bool
  pub sends : ℕ → Bytes → Bool

-- The eviction listener of the sessions: abort the relay task, and remove the pool's entry.
unfoldable pub on_eviction : ℕ → UnderlaySession → Underlay → Underlay
on_eviction source session s = elim session.relay_abort [
  | some h ↦ record s {
    relays = retain (λ r. not (r.id == h)) s.relays;
    udp_pool = del ℕ_discrete source s.udp_pool;
  }
  | none ↦ record s { udp_pool = del ℕ_discrete source s.udp_pool }
]

-- `sessions.invalidate`
unfoldable pub invalidate : ℕ → Underlay → Underlay
unfolding on_eviction
invalidate source s = elim (find ℕ_discrete source s.sessions) [
  | some session ↦
      on_eviction source session (record s { sessions = del ℕ_discrete source s.sessions })
  | none ↦ s
]

-- `sessions.insert`, which evicts an entry that it replaces.
unfoldable pub insert_session : ℕ → UnderlaySession → Underlay → Underlay
unfolding on_eviction
insert_session source session s = elim (find ℕ_discrete source s.sessions) [
  | some old ↦
      on_eviction source old (record s { sessions = put ℕ_discrete source session s.sessions })
  | none ↦ record s { sessions = put ℕ_discrete source session s.sessions }
]

-- `InFlightUnderlayKey::evict` for a packet that need not wait: what `authenticate` makes of the
-- entry, which is consumed if it succeeds.
unfoldable pub evict :
    {A : Type 0}
    → Bytes
    → (UnderlayAuth → Option A)
    → InFlight
    → InFlight × Option (UnderlayAuth × A)
unfolding consume
evict key authenticate t = elim (find Bytes-discrete key t.auth) [
  | none ↦ (t, none)
  | some (auth, inserted_at) ↦ elim (authenticate auth) [
    | none ↦ (t, none)
    | some verified ↦ ((consume key auth inserted_at t).0, some (auth, verified))
  ]
]

module _ (aead : Aead) (world : World) where
  -- `UdpEndpointPool::get_or_create`
  unfoldable pub get_or_create : ℕ → Bytes × ℕ → Underlay → Option ((Endpoint × Bool) × Underlay)
  get_or_create source target s = elim (find ℕ_discrete source s.udp_pool) [
    | some endpoint ↦ some ((endpoint, false), s)
    | none ↦
        if world.opens s.fresh target
        then (let endpoint : Endpoint = record { socket = s.fresh; target = target } in
            some (
              (endpoint, true),
              record s {
                udp_pool = put ℕ_discrete source endpoint s.udp_pool;
                fresh = s.fresh + 1;
              },
            ))
        else none
  ]

  -- The callback of `evict`: the subkey and the opened packet.
  unfoldable pub authenticate : Bytes → UnderlayAuth → Option (Bytes × Bytes)
  unfolding derive_subkey decrypt_in_place
  authenticate payload auth = elim (derive_subkey aead auth.psk (take salt_len payload)) [
    | err e ↦ none
    | ok subkey ↦ elim (decrypt_in_place aead subkey payload) [
      | err e ↦ none
      | ok opened ↦ some (subkey, opened)
    ]
  ]

  -- Send the opened packet without its salt, and give the session up if the socket refuses it.
  unfoldable pub send_opened : ℕ → Endpoint → Bytes → Underlay → Underlay × Verdict
  unfolding invalidate
  send_opened source endpoint opened s =
      if world.sends endpoint.socket (drop salt_len opened)
      then (record s { sent = s.sent ++ ((endpoint, drop salt_len opened) ∷ []) }, forwarded)
      else (
        invalidate source (record s { udp_pool = del ℕ_discrete source s.udp_pool }),
        send_failed,
      )

  -- The relay task of a new endpoint, with its handle.
  unfoldable pub start_relay : ℕ → Endpoint → Bool → Bytes → Underlay → Underlay × Option ℕ
  start_relay source endpoint is_new cipher s =
      if is_new
      then (
        record s {
          relays =
              (record { id = s.fresh; socket = endpoint.socket; source = source; cipher = cipher })
              ∷ s.relays;
          fresh = s.fresh + 1;
        },
        some s.fresh,
      )
      else (s, none)

  -- The packet of a source with a session.
  unfoldable pub handle_existing : ℕ → UnderlaySession → Bytes → Underlay → Underlay × Verdict
  unfolding decrypt_in_place get_or_create send_opened
  handle_existing source session payload s = elim (decrypt_in_place aead session.cipher payload) [
    | err e ↦ (s, invalid_packet)
    | ok opened ↦ elim (get_or_create source session.target s) [
      | none ↦ (s, no_endpoint)
      | some ((endpoint, is_new), s') ↦ send_opened source endpoint opened s'
    ]
  ]

  -- A new session for an authentication whose packet was opened.
  unfoldable pub open_session : ℕ → Bytes × ℕ → Bytes → Bytes → Underlay → Underlay × Verdict
  unfolding get_or_create start_relay insert_session send_opened
  open_session source target subkey opened s = elim (get_or_create source target s) [
    | none ↦ (s, no_endpoint)
    | some ((endpoint, is_new), s') ↦
        let (s'', relay_abort) = start_relay source endpoint is_new subkey s' in
        let session : UnderlaySession = record {
          target = target;
          cipher = subkey;
          relay_abort = relay_abort;
        } in
        send_opened source endpoint opened (insert_session source session s'')
  ]

  -- What `evict` gives, for a source without a session.
  unfoldable pub handle_evicted :
      ℕ → Bool → InFlight × Option (UnderlayAuth × (Bytes × Bytes)) → Underlay → Underlay × Verdict
  unfolding open_session
  handle_evicted source disable_udp_443 (t, none) s = (record s { in_flight = t }, missing_auth)
  handle_evicted source disable_udp_443 (t, some (auth, (subkey, opened))) s =
      if disable_udp_443 && auth.metadata.port == 443
      then (record s { in_flight = t }, blocked)
      else open_session source (auth.metadata.hostname, auth.metadata.port) subkey opened
          (record s { in_flight = t })

  -- The packet of a source without a session.
  unfoldable pub handle_new : ℕ → Bool → Bytes → Underlay → Underlay × Verdict
  unfolding evict authenticate handle_evicted
  handle_new source disable_udp_443 payload s =
      handle_evicted source disable_udp_443
        (evict (take salt_len payload) (authenticate payload) s.in_flight) s

  unfoldable pub handle_non_quic_underlay_packet : ℕ → Bool → Bytes → Underlay → Underlay × Verdict
  unfolding handle_existing handle_new
  handle_non_quic_underlay_packet source disable_udp_443 payload s =
      if ltb (length payload) salt_len
      then (s, too_short)
      else (elim (find ℕ_discrete source s.sessions) [
        | some session ↦ handle_existing source session payload s
        | none ↦ handle_new source disable_udp_443 payload s
      ])

  -- The fast path of the loop: a session with an endpoint in the pool.
  unfoldable pub fast_path : ℕ → UnderlaySession → Endpoint → Bytes → Underlay → Underlay × Verdict
  unfolding decrypt_in_place invalidate
  fast_path source session endpoint payload s =
      elim (decrypt_in_place aead session.cipher payload) [
        | err e ↦ (s, invalid_packet)
        | ok opened ↦
            if world.sends endpoint.socket (drop salt_len opened)
            then (record s { sent = s.sent ++ ((endpoint, drop salt_len opened) ∷ []) }, forwarded)
            else (invalidate source s, send_failed)
      ]

  -- The slow path, which needs a permit of the semaphore.
  unfoldable pub slow_path : ℕ → Bool → Bool → Bytes → Underlay → Underlay × Verdict
  unfolding handle_non_quic_underlay_packet
  slow_path source disable_udp_443 permit payload s =
      if permit
      then handle_non_quic_underlay_packet source disable_udp_443 payload s
      else (s, no_permit)

  -- A packet of `run_underlay_packet_loop`, and its handler at once where one is spawned; Loop has the
  -- tasks.
  unfoldable pub receive_packet : ℕ → Bool → Bool → Bytes → Underlay → Underlay × Verdict
  unfolding fast_path slow_path
  receive_packet source disable_udp_443 permit payload s =
      if ltb (length payload) salt_len
      then (s, too_short)
      else (elim (find ℕ_discrete source s.sessions) [
        | none ↦ slow_path source disable_udp_443 permit payload s
        | some session ↦ elim (find ℕ_discrete source s.udp_pool) [
          | none ↦ slow_path source disable_udp_443 permit payload s
          | some endpoint ↦ fast_path source session endpoint payload s
        ]
      ])
