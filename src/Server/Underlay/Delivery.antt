-- ===== src/Server/Underlay/Delivery.antt =====
-- server/src/server.rs: an underlay session from its first packet on.
use native.Mathlib.Decide.{ℕ_discrete}
use juicity_rs.Base.{
  ℕ, ◌+◌, ◌≡◌, refl, sym, ap, ◌∙◌, List, [], ◌∷◌, ◌++◌, append_assoc, append-nil, map, none, some,
  Bool, true, false, ◌&&◌, Bytes, ok, arith, drop-append, ◌==◌, find, put, find-put, Bytes-discrete,
  All,
}
use juicity_rs.Crypto.{Aead, AeadLaws, salt_len, derive_subkey}
use juicity_rs.Protocol.Wire.{UnderlayAuth}
use juicity_rs.Server.InFlight.{consume}
use juicity_rs.Server.Underlay.{
  World, Underlay, UnderlaySession, Endpoint, forwarded, evict, authenticate, get_or_create,
  start_relay, insert_session, send_opened, open_session, handle_evicted, handle_new,
  handle_non_quic_underlay_packet, fast_path,
}
use juicity_rs.Server.Underlay.Loop.{
  UnderlayServer, Turn, received, handled, spawn_handler, receive_or_spawn, run_handler,
  run_underlay_packet_loop,
}
use juicity_rs.Server.Underlay.Opened.{
  IsSealed, take-sealed, sealed-long, authenticate-sealed, sealed-opens,
}

-- A datagram of a client: its payload, the salt and the packet that carries it, and whether there
-- is a permit when it comes.
pub record Datagram : Type 0 where
  pub plain : Bytes
  pub salt : Bytes
  pub packet : Bytes
  pub permit : Bool

abbrev pub arrival : ℕ → Datagram → Turn
arrival source d = received source d.permit d.packet

abbrev pub onward : Endpoint → Datagram → Endpoint × Bytes
onward endpoint d = (endpoint, d.plain)

-- The endpoint that is opened for an authentication.
abbrev pub new_endpoint : UnderlayAuth → Underlay → Endpoint
new_endpoint auth s = record {
  socket = s.fresh;
  target = (auth.metadata.hostname, auth.metadata.port);
}

module _ (aead : Aead) (laws : AeadLaws aead) (world : World) (subkey : Bytes) where
  -- Sealed under the subkey, with a payload that the socket takes.
  pub record IsDeliverable (socket : ℕ) (d : Datagram) : Type 0 where
    pub sealed : IsSealed aead subkey d.salt d.plain d.packet
    pub takes : world.sends socket d.plain ≡ true

  -- The source has a session under the subkey, and its endpoint is in the pool.
  pub record IsLive (source : ℕ) (endpoint : Endpoint) (s : Underlay) : Type 0 where
    pub session : UnderlaySession
    pub has_session : find ℕ_discrete source s.sessions ≡ some session
    pub has_endpoint : find ℕ_discrete source s.udp_pool ≡ some endpoint
    pub same_key : session.cipher ≡ subkey

  module _ (source : ℕ) (disable_udp_443 : Bool) (endpoint : Endpoint) where
    -- With a session and an endpoint the loop itself forwards.
    live_receive :
        (d : Datagram) (s : UnderlayServer)
        → IsLive source endpoint s.state
        → IsDeliverable endpoint.socket d
        → receive_or_spawn aead world disable_udp_443 source d.permit d.packet s ≡ record s {
          state = record s.state { sent = s.state.sent ++ ((endpoint, d.plain) ∷ []) };
        }
    unfolding receive_or_spawn fast_path
    live_receive d s live h =
        let long = sealed-long aead laws subkey d.salt d.plain d.packet h.sealed in
        let opens = sealed-opens aead laws subkey d.salt d.plain d.packet h.sealed in
        let salted = h.sealed.salted in
        let takes = h.takes in
        let has_session = live.has_session in
        let has_endpoint = live.has_endpoint in
        let same_key = live.same_key in
        rw
          (
            receive_or_spawn,
            long,
            has_session,
            has_endpoint,
            fast_path,
            same_key,
            opens,
            drop-append salt_len d.salt d.plain salted,
            takes,
          )
          refl

    live_lem :
        (ds : List Datagram) (s : UnderlayServer)
        → IsLive source endpoint s.state
        → All (IsDeliverable endpoint.socket) ds
        → (run_underlay_packet_loop aead world disable_udp_443
            (map (arrival source) ds)
            s).state.sent
          ≡ s.state.sent ++ map (onward endpoint) ds
    unfolding run_underlay_packet_loop
    live_lem [] s live h = sym (append-nil s.state.sent)
    live_lem (d ∷ ds) s live (h, hs) =
        let s' : UnderlayServer = record s {
          state = record s.state { sent = s.state.sent ++ ((endpoint, d.plain) ∷ []) };
        } in
        let still : IsLive source endpoint s'.state = record {
          session = live.session;
          has_session = live.has_session;
          has_endpoint = live.has_endpoint;
          same_key = live.same_key;
        } in
        rw (run_underlay_packet_loop, live_receive d s live h)
          (live_lem ds s' still hs
            ∙ append_assoc s.state.sent ((endpoint, d.plain) ∷ []) (map (onward endpoint) ds))

  -- What the first packet needs: no session and no endpoint yet, an authentication under the
  -- packet's salt whose key gives the subkey, a port that is not blocked, a permit, and a socket.
  pub record IsExpected (source : ℕ) (disable_udp_443 : Bool) (first : Datagram)
      (auth : UnderlayAuth) (s : Underlay) : Type 0 where
    pub inserted_at : ℕ
    pub no_session : find ℕ_discrete source s.sessions ≡ none
    pub not_pooled : find ℕ_discrete source s.udp_pool ≡ none
    pub stored : find Bytes-discrete first.salt s.in_flight.auth ≡ some (auth, inserted_at)
    pub derived : derive_subkey aead auth.psk first.salt ≡ ok subkey
    pub open_port : (disable_udp_443 && auth.metadata.port == 443) ≡ false
    pub permitted : first.permit ≡ true
    pub opens : world.opens s.fresh (auth.metadata.hostname, auth.metadata.port) ≡ true

  module _ (source : ℕ) (disable_udp_443 : Bool) (d : Datagram) (auth : UnderlayAuth) (s : Underlay)
      (e : IsExpected source disable_udp_443 d auth s) (h : IsDeliverable s.fresh d) where
    abbrev consumed : Underlay
    consumed = record s { in_flight = (consume d.salt auth e.inserted_at s.in_flight).0 }

    abbrev opened_session : UnderlaySession
    opened_session = record {
      target = (auth.metadata.hostname, auth.metadata.port);
      cipher = subkey;
      relay_abort = some (s.fresh + 1);
    }

    abbrev after_first : Underlay
    after_first = record consumed {
      sessions = put ℕ_discrete source opened_session s.sessions;
      udp_pool = put ℕ_discrete source (new_endpoint auth s) s.udp_pool;
      relays =
          (record { id = s.fresh + 1; socket = s.fresh; source = source; cipher = subkey })
          ∷ s.relays;
      fresh = (s.fresh + 1) + 1;
      sent = s.sent ++ ((new_endpoint auth s, d.plain) ∷ []);
    }

    evicted : evict d.salt (authenticate aead world d.packet) s.in_flight ≡ (
      (consume d.salt auth e.inserted_at s.in_flight).0,
      some (auth, (subkey, d.salt ++ d.plain)),
    )
    unfolding evict consume
    evicted =
        let auth_sealed =
          authenticate-sealed aead laws subkey d.salt d.plain d.packet h.sealed world auth
            e.derived in
        let stored = e.stored in rw (evict, stored, auth_sealed) refl

    opens_session :
        open_session aead world source
          (auth.metadata.hostname, auth.metadata.port)
          subkey
          (d.salt ++ d.plain)
          consumed
        ≡ (after_first, forwarded)
    unfolding open_session get_or_create start_relay insert_session send_opened
    opens_session =
        let not_pooled = e.not_pooled in
        let opens = e.opens in
        let no_session = e.no_session in
        let takes = h.takes in
        let salted = h.sealed.salted in
        rw
          (
            open_session,
            get_or_create,
            not_pooled,
            opens,
            start_relay,
            insert_session,
            no_session,
            send_opened,
            drop-append salt_len d.salt d.plain salted,
            takes,
          )
          refl

    verified_lem :
        handle_evicted aead world source disable_udp_443
          (
            (consume d.salt auth e.inserted_at s.in_flight).0,
            some (auth, (subkey, d.salt ++ d.plain)),
          )
          s
        ≡ (after_first, forwarded)
    unfolding handle_evicted
    verified_lem = let open_port = e.open_port in rw (open_port, opens_session) refl

    new_lem : handle_new aead world source disable_udp_443 d.packet s ≡ (after_first, forwarded)
    unfolding handle_new
    new_lem =
        let salted = take-sealed aead laws subkey d.salt d.plain d.packet h.sealed in
        ap
          (λ k.
            handle_evicted aead world source disable_udp_443
              (evict k (authenticate aead world d.packet) s.in_flight) s)
          salted
        ∙ ap (λ r. handle_evicted aead world source disable_udp_443 r s) evicted
        ∙ verified_lem

    -- The packet has no session yet: its handler is spawned.
    spawned_lem :
        receive_or_spawn aead world disable_udp_443 source d.permit d.packet
          (record { state = s; tasks = [] })
        ≡ record { state = s; tasks = (source, d.packet) ∷ [] }
    unfolding receive_or_spawn spawn_handler
    spawned_lem =
        let long = sealed-long aead laws subkey d.salt d.plain d.packet h.sealed in
        let no_session = e.no_session in
        let permitted = e.permitted in rw (receive_or_spawn, long, no_session, permitted) refl

    handled_lem :
        run_handler aead world disable_udp_443 0
          (record { state = s; tasks = (source, d.packet) ∷ [] })
        ≡ record { state = after_first; tasks = [] }
    unfolding run_handler handle_non_quic_underlay_packet
    handled_lem =
        let long = sealed-long aead laws subkey d.salt d.plain d.packet h.sealed in
        let no_session = e.no_session in
        rw (run_handler, handle_non_quic_underlay_packet, long, no_session, new_lem) refl

    after_first-IsLive : IsLive source (new_endpoint auth s) after_first
    after_first-IsLive = record {
      session = opened_session;
      has_session = find-put ℕ_discrete source source opened_session s.sessions ∙ ground arith;
      has_endpoint =
          find-put ℕ_discrete source source (new_endpoint auth s) s.udp_pool ∙ ground arith;
      same_key = refl;
    }

  -- Where no handler is pending, a source without a session sends a first packet whose salt has an
  -- authentication in the table, whose port is not blocked and for which a permit and a socket are
  -- there, and the handler that the loop spawns for it has run before the next packet is received:
  -- the payloads of this packet and of all later ones under the same key, with or without a permit,
  -- none of them empty, go in order through one new endpoint to the target of the authentication.
  pub run_underlay_packet_loop-sealed :
      (source : ℕ) (disable_udp_443 : Bool) (d : Datagram) (ds : List Datagram)
      (auth : UnderlayAuth) (s : Underlay)
      → IsExpected source disable_udp_443 d auth s
      → All (IsDeliverable s.fresh) (d ∷ ds)
      → (run_underlay_packet_loop aead world disable_udp_443
          (arrival source d ∷ (handled 0 ∷ map (arrival source) ds))
          (record { state = s; tasks = [] })).state.sent
        ≡ s.sent ++ map (onward (new_endpoint auth s)) (d ∷ ds)
  unfolding run_underlay_packet_loop
  run_underlay_packet_loop-sealed source disable d ds auth s e (h, hs) =
      let spawned = spawned_lem source disable d auth s e h in
      let handled = handled_lem source disable d auth s e h in
      let live = after_first-IsLive source disable d auth s e h in
      rw (run_underlay_packet_loop, spawned, run_underlay_packet_loop, handled)
        (live_lem source disable (new_endpoint auth s) ds
            (record { state = after_first source disable d auth s e h; tasks = [] }) live hs
          ∙ append_assoc s.sent ((new_endpoint auth s, d.plain) ∷ [])
              (map (onward (new_endpoint auth s)) ds))
