-- ===== src/Server/Underlay/Admission.antt =====
-- server/src/server.rs: whose underlay packets are sent on.
use native.Mathlib.Decide.{ℕ_discrete}
use mathlib.Core.Path.{subst}
use juicity_rs.Base.{
  ℕ, ◌≡◌, ◌⊎◌, refl, sym, ap, ◌∙◌, [], ◌∷◌, ◌++◌, Option, none, some, Bool, true, false, ◌&&◌,
  Bytes, arith, length, take, drop, ltb, if◌then◌else◌, ◌==◌, find, del, find-del, Bytes-discrete,
  Bool-cases, Option-cases, inl, inr,
}
use juicity_rs.Crypto.{Aead, salt_len}
use juicity_rs.Protocol.Wire.{UnderlayAuth}
use juicity_rs.Server.InFlight.{InFlight, consume}
use juicity_rs.Server.Underlay.{
  World, Underlay, UnderlaySession, Endpoint, blocked, on_eviction, invalidate, insert_session,
  evict, get_or_create, authenticate, start_relay, send_opened, open_session, handle_evicted,
  handle_new, handle_non_quic_underlay_packet, slow_path, receive_packet,
}

-- What a step leaves alone: the table of authentications and what was sent.
record IsQuiet (s u : Underlay) : Type 0 where
  same_table : u.in_flight ≡ s.in_flight
  same_sent : u.sent ≡ s.sent

on_eviction-IsQuiet :
    (source : ℕ) (session : UnderlaySession) (s : Underlay)
    → IsQuiet s (on_eviction source session s)
unfolding on_eviction
on_eviction-IsQuiet source session s = record {
  same_table = ground arith;
  same_sent = ground arith;
}

invalidate-IsQuiet : (source : ℕ) (s : Underlay) → IsQuiet s (invalidate source s)
unfolding invalidate on_eviction
invalidate-IsQuiet source s = record { same_table = ground arith; same_sent = ground arith }

insert_session-IsQuiet :
    (source : ℕ) (session : UnderlaySession) (s : Underlay)
    → IsQuiet s (insert_session source session s)
unfolding insert_session on_eviction
insert_session-IsQuiet source session s = record {
  same_table = ground arith;
  same_sent = ground arith;
}

module _ (aead : Aead) (world : World) where
  -- Nothing is sent, or one payload through one endpoint.
  abbrev SendsAtMost : Bytes → Underlay → Underlay → Type 0
  SendsAtMost payload s u =
      (u.in_flight ≡ s.in_flight)
      × ((u.sent ≡ s.sent)
          ⊎ ((endpoint : Endpoint) × (u.sent ≡ s.sent ++ ((endpoint, payload) ∷ []))))

  send_opened-SendsAtMost :
      (source : ℕ) (endpoint : Endpoint) (opened : Bytes) (s : Underlay)
      → SendsAtMost (drop salt_len opened) s (send_opened aead world source endpoint opened s).0
  unfolding send_opened
  send_opened-SendsAtMost source endpoint opened s =
      elim (Bool-cases (world.sends endpoint.socket (drop salt_len opened))) [
        | inl e ↦ rw e (refl, inr (endpoint, refl))
        | inr e ↦
            let quiet =
              invalidate-IsQuiet source
                (record s { udp_pool = del ℕ_discrete source s.udp_pool }) in
            rw e (quiet.same_table, inl quiet.same_sent)
      ]

  after_quiet :
      (payload : Bytes) (s t u : Underlay)
      → IsQuiet s t
      → SendsAtMost payload t u
      → SendsAtMost payload s u
  after_quiet payload s t u q (table, inl e) = (table ∙ q.same_table, inl (e ∙ q.same_sent))
  after_quiet payload s t u q (table, inr (endpoint, e)) = (
    table ∙ q.same_table,
    inr (endpoint, e ∙ ap (λ r. r ++ ((endpoint, payload) ∷ [])) q.same_sent),
  )

  get_or_create-IsQuiet :
      (source : ℕ) (target : Bytes × ℕ) (s t : Underlay) (pooled : Endpoint × Bool)
      → get_or_create aead world source target s ≡ some (pooled, t)
      → IsQuiet s t
  unfolding get_or_create
  get_or_create-IsQuiet source target s t pooled h = record {
    same_table = ground (arith, h);
    same_sent = ground (arith, h);
  }

  start_relay-IsQuiet :
      (source : ℕ) (endpoint : Endpoint) (is_new : Bool) (cipher : Bytes) (s : Underlay)
      → IsQuiet s (start_relay aead world source endpoint is_new cipher s).0
  unfolding start_relay
  start_relay-IsQuiet source endpoint is_new cipher s = record {
    same_table = ground arith;
    same_sent = ground arith;
  }

  open_session-SendsAtMost :
      (source : ℕ) (target : Bytes × ℕ) (subkey opened : Bytes) (s : Underlay)
      → SendsAtMost
          (drop salt_len opened)
          s
          (open_session aead world source target subkey opened s).0
  unfolding open_session
  open_session-SendsAtMost source target subkey opened s =
      elim (Option-cases (get_or_create aead world source target s)) [
        | inl e ↦ rw (open_session, e) (refl, inl refl)
        | inr (((endpoint, is_new), s'), e) ↦
            let r = start_relay aead world source endpoint is_new subkey s' in
            let session : UnderlaySession = record {
              target = target;
              cipher = subkey;
              relay_abort = r.1;
            } in
            let inserted = insert_session source session r.0 in
            let sends = send_opened-SendsAtMost source endpoint opened inserted in
            let u = (send_opened aead world source endpoint opened inserted).0 in
            let payload = drop salt_len opened in
            rw (open_session, e)
              (after_quiet payload s s' u
                (get_or_create-IsQuiet source target s s' (endpoint, is_new) e)
                (after_quiet payload s' r.0 u (start_relay-IsQuiet source endpoint is_new subkey s')
                  (after_quiet payload r.0 inserted u (insert_session-IsQuiet source session r.0)
                    sends)))
      ]

  -- Something is sent for a packet of an unknown source: the table had an authentication under the
  -- packet's salt, whose key opens the packet and whose port is not blocked; the payload is what
  -- the packet opens to, and the authentication is no longer in the table.
  pub record IsAdmitted (disable_udp_443 : Bool) (payload : Bytes) (s u : Underlay) : Type 0 where
    pub auth : UnderlayAuth
    pub inserted_at : ℕ
    pub subkey : Bytes
    pub opened : Bytes
    pub endpoint : Endpoint
    pub stored :
        find Bytes-discrete (take salt_len payload) s.in_flight.auth ≡ some (auth, inserted_at)
    pub opens : authenticate aead world payload auth ≡ some (subkey, opened)
    pub open_port : (disable_udp_443 && auth.metadata.port == 443) ≡ false
    pub sends : u.sent ≡ s.sent ++ ((endpoint, drop salt_len opened) ∷ [])
    pub consumed : find Bytes-discrete (take salt_len payload) u.in_flight.auth ≡ none

  consume-gone :
      (key : Bytes) (auth : UnderlayAuth) (inserted_at : ℕ) (t : InFlight)
      → find Bytes-discrete key t.auth ≡ some (auth, inserted_at)
      → find Bytes-discrete key (consume key auth inserted_at t).0.auth ≡ none
  unfolding consume
  consume-gone key auth inserted_at t h = ground (arith, h, find-del Bytes-discrete key key t.auth)

  -- What `evict` gives is an authentication of the table that opens the packet, now taken.
  abbrev IsEvicted : Bytes → InFlight → InFlight × Option (UnderlayAuth × (Bytes × Bytes)) → Type 0
  IsEvicted payload before (t, none) = Unit
  IsEvicted payload before (t, some (auth, verified)) =
      (inserted_at : ℕ) × (find Bytes-discrete (take salt_len payload) before.auth
        ≡ some (auth, inserted_at))
      × (authenticate aead world payload auth ≡ some verified)
      × (find Bytes-discrete (take salt_len payload) t.auth ≡ none)

  evict-taken :
      (payload : Bytes) (auth : UnderlayAuth) (inserted_at : ℕ) (verified : Bytes × Bytes)
      (t : InFlight)
      → find Bytes-discrete (take salt_len payload) t.auth ≡ some (auth, inserted_at)
      → authenticate aead world payload auth ≡ some verified
      → evict (take salt_len payload) (authenticate aead world payload) t
        ≡ ((consume (take salt_len payload) auth inserted_at t).0, some (auth, verified))
  unfolding evict consume
  evict-taken payload auth inserted_at verified t e f = rw (evict, e, f) refl

  evict-IsEvicted :
      (payload : Bytes) (t : InFlight)
      → IsEvicted payload t (evict (take salt_len payload) (authenticate aead world payload) t)
  unfolding evict
  evict-IsEvicted payload t =
      elim (Option-cases (find Bytes-discrete (take salt_len payload) t.auth)) [
        | inl e ↦ rw (evict, e) tt
        | inr ((auth, inserted_at), e) ↦
            elim (Option-cases (authenticate aead world payload auth)) [
              | inl f ↦ rw (evict, e, f) tt
              | inr (verified, f) ↦
                  subst (IsEvicted payload t)
                    (sym (evict-taken payload auth inserted_at verified t e f))
                    (inserted_at, e, f, consume-gone (take salt_len payload) auth inserted_at t e)
            ]
      ]

  abbrev Admits : Bool → Bytes → Underlay → Underlay → Type 0
  Admits disable_udp_443 payload s u = (u.sent ≡ s.sent) ⊎ IsAdmitted disable_udp_443 payload s u

  admits_lem :
      (disable_udp_443 : Bool) (payload : Bytes) (s u : Underlay) (t : InFlight)
      (auth : UnderlayAuth) (subkey opened : Bytes)
      → IsEvicted payload s.in_flight (t, some (auth, (subkey, opened)))
      → (disable_udp_443 && auth.metadata.port == 443) ≡ false
      → SendsAtMost (drop salt_len opened) (record s { in_flight = t }) u
      → Admits disable_udp_443 payload s u
  admits_lem disable payload s u t auth subkey opened h open_port (table, inl e) = inl e
  admits_lem disable payload s u t auth subkey opened (inserted_at, stored, opens, gone) open_port
        (table, inr (endpoint, e)) =
      inr (record {
        auth = auth;
        inserted_at = inserted_at;
        subkey = subkey;
        opened = opened;
        endpoint = endpoint;
        stored = stored;
        opens = opens;
        open_port = open_port;
        sends = e;
        consumed = ap (λ i. find Bytes-discrete (take salt_len payload) i.auth) table ∙ gone;
      })

  handle_evicted-Admits :
      (source : ℕ) (disable_udp_443 : Bool) (payload : Bytes) (s : Underlay)
      (x : InFlight × Option (UnderlayAuth × (Bytes × Bytes)))
      → IsEvicted payload s.in_flight x
      → Admits disable_udp_443 payload s (handle_evicted aead world source disable_udp_443 x s).0
  unfolding handle_evicted
  handle_evicted-Admits source disable payload s (t, none) h = inl refl
  handle_evicted-Admits source disable payload s (t, some (auth, (subkey, opened)))
        (inserted_at, stored, opens, gone) =
      elim (Bool-cases (disable && auth.metadata.port == 443)) [
        | inl e ↦ rw e (inl refl)
        | inr e ↦
            let target : Bytes × ℕ = (auth.metadata.hostname, auth.metadata.port) in
            let u =
              (open_session aead world source target subkey opened
                (record s { in_flight = t })).0 in
            subst
              (λ b.
                Admits disable payload s
                  (if b
                    then (record s { in_flight = t }, blocked)
                    else open_session aead world source target subkey opened
                        (record s { in_flight = t })).0)
              (sym e)
              (admits_lem disable payload s u t auth subkey opened
                (inserted_at, stored, opens, gone) e
                (open_session-SendsAtMost source target subkey opened (record s { in_flight = t })))
      ]

  handle_new-Admits :
      (source : ℕ) (disable_udp_443 : Bool) (payload : Bytes) (s : Underlay)
      → Admits disable_udp_443 payload s (handle_new aead world source disable_udp_443 payload s).0
  unfolding handle_new
  handle_new-Admits source disable payload s =
      handle_evicted-Admits source disable payload s
        (evict (take salt_len payload) (authenticate aead world payload) s.in_flight)
        (evict-IsEvicted payload s.in_flight)

  -- For a source without a session, whether there is a permit or not: either nothing is sent on, or
  -- the packet was admitted. Its salt had an authentication in the table whose key opens the packet
  -- and whose port is not blocked, one payload is sent, which is what the packet opens to, and the
  -- authentication is gone from the table, so that it admits no other packet.
  pub receive_packet-Admits :
      (source : ℕ) (disable_udp_443 permit : Bool) (payload : Bytes) (s : Underlay)
      → find ℕ_discrete source s.sessions ≡ none
      → (let u = (receive_packet aead world source disable_udp_443 permit payload s).0 in
          (u.sent ≡ s.sent) ⊎ IsAdmitted disable_udp_443 payload s u)
  unfolding receive_packet slow_path handle_non_quic_underlay_packet
  receive_packet-Admits source disable false payload s h =
      elim (Bool-cases (ltb (length payload) salt_len)) [
        | inl short ↦ rw short (inl refl)
        | inr long ↦ rw (long, h) (inl refl)
      ]
  receive_packet-Admits source disable true payload s h =
      elim (Bool-cases (ltb (length payload) salt_len)) [
        | inl short ↦ rw short (inl refl)
        | inr long ↦
            rw (long, h, slow_path, handle_non_quic_underlay_packet, long, h)
              (handle_new-Admits source disable payload s)
      ]
