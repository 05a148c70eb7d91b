-- ===== src/Server/Underlay/Opened.antt =====
-- server/src/server.rs: the packets that a session opens.
use native.Mathlib.Decide.{ℕ_discrete}
use juicity_rs.Base.{
  ℕ, ◌≡◌, refl, ◌∙◌, [], ◌∷◌, ◌++◌, some, Bool, true, false, Bytes, ok, arith, length,
  length-append, take, take-append, drop-append, replicate, ltb, is_empty, find, Option-cases, inl,
  inr,
}
use juicity_rs.Crypto.{Aead, AeadLaws, salt_len, encrypt_in_place, decrypt_in_place, derive_subkey}
use juicity_rs.Crypto.Packets.{decrypt_in_place-encrypt_in_place, encrypt_in_place-sealed}
use juicity_rs.Protocol.Wire.{UnderlayAuth}
use juicity_rs.Server.Underlay.{
  World, Underlay, UnderlaySession, Endpoint, forwarded, authenticate, fast_path, receive_packet,
}

-- A packet that carries a plaintext, which is not empty, under a subkey.
pub record IsSealed (aead : Aead) (subkey salt plain packet : Bytes) : Type 0 where
  pub salted : length salt ≡ salt_len
  pub nonempty : is_empty plain ≡ false
  pub seals : encrypt_in_place aead subkey (replicate salt_len 0 ++ plain) salt ≡ ok packet

module _ (aead : Aead) (laws : AeadLaws aead) (subkey salt plain packet : Bytes)
    (h : IsSealed aead subkey salt plain packet) where
  pub sealed-opens : decrypt_in_place aead subkey packet ≡ ok (salt ++ plain)
  sealed-opens =
      let e = h.nonempty in
      decrypt_in_place-encrypt_in_place aead laws subkey salt (replicate salt_len 0) plain packet
        h.salted refl h.seals
      ∙ rw e refl

  pub sealed-behind : (rest : Bytes) × (packet ≡ salt ++ rest)
  unfolding encrypt_in_place
  sealed-behind =
      let seals = h.seals in
      elim (Option-cases (aead.encrypt_detached subkey plain)) [
        | inl e ↦
            absurd (ground (arith, seals, drop-append salt_len (replicate salt_len 0) plain refl))
        | inr ((cipher, tag), e) ↦
            let sent =
              encrypt_in_place-sealed aead laws subkey salt plain cipher tag h.salted e
                (replicate salt_len 0) refl in
            (cipher ++ tag, cc (sent, seals))
      ]

  pub take-sealed : take salt_len packet ≡ salt
  take-sealed = let (rest, e) = sealed-behind in rw e (take-append salt_len salt rest h.salted)

  pub sealed-long : ltb (length packet) salt_len ≡ false
  sealed-long =
      let (rest, e) = sealed-behind in rw e (ground (arith, length-append salt rest, h.salted))

  -- The first packet of a session proves the key of its authentication.
  pub authenticate-sealed :
      (world : World) (auth : UnderlayAuth)
      → derive_subkey aead auth.psk salt ≡ ok subkey
      → authenticate aead world packet auth ≡ some (subkey, salt ++ plain)
  unfolding authenticate
  authenticate-sealed world auth derived =
      rw (authenticate, take-sealed, derived, sealed-opens) refl

  module _ (world : World) (source : ℕ) (disable_udp_443 permit : Bool) (session : UnderlaySession)
      (endpoint : Endpoint) (s : Underlay) (live : find ℕ_discrete source s.sessions ≡ some session)
      (pooled : find ℕ_discrete source s.udp_pool ≡ some endpoint) (same : session.cipher ≡ subkey)
      (takes : world.sends endpoint.socket plain ≡ true) where
    -- A later packet of a live session is forwarded, with or without a permit.
    pub receive_packet-sealed :
        receive_packet aead world source disable_udp_443 permit packet s
        ≡ (record s { sent = s.sent ++ ((endpoint, plain) ∷ []) }, forwarded)
    unfolding receive_packet fast_path
    receive_packet-sealed =
        rw
          (
            sealed-long,
            live,
            pooled,
            fast_path,
            same,
            sealed-opens,
            drop-append salt_len salt plain h.salted,
            takes,
          )
          refl
