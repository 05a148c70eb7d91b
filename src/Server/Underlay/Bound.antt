-- ===== src/Server/Underlay/Bound.antt =====
-- server/src/server.rs: a source that has a session stays with it.
use native.Mathlib.Decide.{ℕ_discrete}
use juicity_rs.Base.{
  ℕ, ◌≡◌, refl, [], ◌∷◌, ◌++◌, some, ◌⊎◌, inl, inr, Bool, Bytes, Result, ok, err, length, drop, ltb,
  find, del, put, ◌+◌, Bool-cases, Option-cases, arith,
}
use juicity_rs.Crypto.{Aead, CryptoError, salt_len, decrypt_in_place}
use juicity_rs.Server.Underlay.{
  World, Underlay, UnderlaySession, Endpoint, on_eviction, invalidate, get_or_create, send_opened,
  handle_existing, handle_non_quic_underlay_packet, fast_path, slow_path, receive_packet,
}

module _ (aead : Aead) (world : World) (source : ℕ) (session : UnderlaySession)
    (payload : Bytes) where
  -- What a packet may do to the state: no authentication is consumed, the session stays or is removed,
  -- and a payload is sent only if the session's cipher opens the packet.
  record IsBound (s s' : Underlay) : Type 0 where
    table : s'.in_flight ≡ s.in_flight
    kept : (s'.sessions ≡ s.sessions) ⊎ (s'.sessions ≡ del ℕ_discrete source s.sessions)
    opened :
        (s'.sent ≡ s.sent)
        ⊎ ((endpoint : Endpoint) × (plain : Bytes) × (decrypt_in_place aead session.cipher payload
              ≡ ok plain)
            × (s'.sent ≡ s.sent ++ ((endpoint, drop salt_len plain) ∷ [])))

  IsBound-refl : (s : Underlay) → IsBound s s
  IsBound-refl s = record { table = refl; kept = inl refl; opened = inl refl }

  invalidate-IsBound : (s : Underlay) → IsBound s (invalidate source s)
  unfolding invalidate on_eviction
  invalidate-IsBound s = record { table = ground arith; kept = ground arith; opened = ground arith }

  opened_cases :
      (r : Result CryptoError Bytes)
      → ((e : CryptoError) × (r ≡ err e)) ⊎ ((plain : Bytes) × (r ≡ ok plain))
  opened_cases (err e) = inl (e, refl)
  opened_cases (ok plain) = inr (plain, refl)

  send_opened-IsBound :
      (endpoint : Endpoint) (plain : Bytes) (s : Underlay)
      → decrypt_in_place aead session.cipher payload ≡ ok plain
      → IsBound s (send_opened aead world source endpoint plain s).0
  unfolding send_opened
  send_opened-IsBound endpoint plain s e =
      elim (Bool-cases (world.sends endpoint.socket (drop salt_len plain))) [
        | inl t ↦
            rw (send_opened, t)
              (record { table = refl; kept = inl refl; opened = inr (endpoint, plain, e, refl) })
        | inr f ↦
            let b = invalidate-IsBound (record s { udp_pool = del ℕ_discrete source s.udp_pool }) in
            rw (send_opened, f) (record { table = b.table; kept = b.kept; opened = b.opened })
      ]

  fast_path-IsBound :
      (endpoint : Endpoint) (s : Underlay)
      → IsBound s (fast_path aead world source session endpoint payload s).0
  unfolding fast_path
  fast_path-IsBound endpoint s =
      elim (opened_cases (decrypt_in_place aead session.cipher payload)) [
        | inl (e, unopened) ↦ rw (fast_path, unopened) (IsBound-refl s)
        | inr (plain, opens) ↦
            elim (Bool-cases (world.sends endpoint.socket (drop salt_len plain))) [
              | inl t ↦
                  rw (fast_path, opens, t)
                    (record {
                      table = refl;
                      kept = inl refl;
                      opened = inr (endpoint, plain, opens, refl);
                    })
              | inr f ↦ rw (fast_path, opens, f) (invalidate-IsBound s)
            ]
      ]

  handle_existing-IsBound :
      (s : Underlay) → IsBound s (handle_existing aead world source session payload s).0
  unfolding handle_existing get_or_create
  handle_existing-IsBound s = elim (opened_cases (decrypt_in_place aead session.cipher payload)) [
    | inl (e, unopened) ↦ rw (handle_existing, unopened) (IsBound-refl s)
    | inr (plain, opens) ↦ elim (Option-cases (find ℕ_discrete source s.udp_pool)) [
      | inr (endpoint, pooled) ↦
          rw (handle_existing, opens, get_or_create, pooled)
            (send_opened-IsBound endpoint plain s opens)
      | inl missing ↦ elim (Bool-cases (world.opens s.fresh session.target)) [
        | inr f ↦ rw (handle_existing, opens, get_or_create, missing, f) (IsBound-refl s)
        | inl t ↦
            let endpoint : Endpoint = record { socket = s.fresh; target = session.target } in
            let b =
              send_opened-IsBound endpoint plain
                (record s {
                  udp_pool = put ℕ_discrete source endpoint s.udp_pool;
                  fresh = s.fresh + 1;
                })
                opens in
            rw (handle_existing, opens, get_or_create, missing, t)
              (record { table = b.table; kept = b.kept; opened = b.opened })
      ]
    ]
  ]

  received_lem :
      (disable_udp_443 permit : Bool) (s : Underlay)
      → find ℕ_discrete source s.sessions ≡ some session
      → IsBound s (receive_packet aead world source disable_udp_443 permit payload s).0
  unfolding receive_packet slow_path handle_non_quic_underlay_packet
  received_lem disable permit s live = elim (Bool-cases (ltb (length payload) salt_len)) [
    | inl short ↦ rw short (IsBound-refl s)
    | inr long ↦ elim (Option-cases (find ℕ_discrete source s.udp_pool)) [
      | inr (endpoint, pooled) ↦ rw (long, live, pooled) (fast_path-IsBound endpoint s)
      | inl missing ↦ elim (Bool-cases permit) [
        | inl yes_permit ↦
            rw
              (
                long, live, missing, slow_path, yes_permit, handle_non_quic_underlay_packet, long,
                live,
              )
              (handle_existing-IsBound s)
        | inr no_permit ↦ rw (long, live, missing, slow_path, no_permit) (IsBound-refl s)
      ]
    ]
  ]

  -- Whatever packet comes from a source that has a session, with or without a permit, even one for
  -- which the table has an authentication: no authentication is consumed, the session stays as it is
  -- or is removed, and nothing is sent but the payload that the session's own cipher opens the packet
  -- to. So the source cannot start another session while it has this one. (That a look at the session
  -- lets it live longer is not part of the state.)
  pub receive_packet_bound :
      (disable_udp_443 permit : Bool) (s : Underlay)
      → find ℕ_discrete source s.sessions ≡ some session
      → ((receive_packet aead world source disable_udp_443 permit payload s).0.in_flight
          ≡ s.in_flight)
        × (((receive_packet aead world source disable_udp_443 permit payload s).0.sessions
              ≡ s.sessions)
            ⊎ ((receive_packet aead world source disable_udp_443 permit payload s).0.sessions
                ≡ del ℕ_discrete source s.sessions))
        × (((receive_packet aead world source disable_udp_443 permit payload s).0.sent ≡ s.sent)
            ⊎ ((endpoint : Endpoint) × (plain : Bytes) × (decrypt_in_place aead session.cipher
                    payload
                  ≡ ok plain)
                × ((receive_packet aead world source disable_udp_443 permit payload s).0.sent
                    ≡ s.sent ++ ((endpoint, drop salt_len plain) ∷ []))))
  receive_packet_bound disable permit s live =
      let b = received_lem disable permit s live in (b.table, b.kept, b.opened)
