-- ===== src/Tests/Underlay.antt =====
-- Underlay sessions at concrete packets, with the stand-in for the AEAD.
use native.Mathlib.Decide.{ℕ_discrete}
use juicity_rs.Base.{
  del, drop, ℕ, ◌≡◌, ◌⊎◌, refl, List, [], ◌∷◌, ◌++◌, Option, some, none, Bool, true, false, Bytes,
  ok, err, map, length, replicate, is_empty, arith, All,
}
use juicity_rs.Protocol.Wire.{UnderlayAuth, udp}
use juicity_rs.Crypto.{derive_subkey, encrypt_in_place, decrypt_in_place, salt_len}
use juicity_rs.Server.Demux.{is_probably_quic_packet}
use juicity_rs.Server.Underlay.{World, Underlay, UnderlaySession, Endpoint, receive_packet}
use juicity_rs.Server.Underlay.Bound.{receive_packet_bound}
use juicity_rs.Server.Underlay.Loop.{handled, run_underlay_packet_loop}
use juicity_rs.Server.Underlay.Delivery.{
  Datagram, arrival, onward, new_endpoint, IsDeliverable, run_underlay_packet_loop-sealed,
}
use juicity_rs.Server.Underlay.Admission.{IsAdmitted, receive_packet-Admits}
use juicity_rs.Server.RelayBack.{relay_back}
use juicity_rs.Server.RelayBack.RoundTrip.{open_reply, relay_back-open_reply}
use juicity_rs.Tests.Addresses.{small_aead, small_aead-AeadLaws, small_tag}

abbrev key : Bytes
key = replicate 32 3

abbrev salt : Bytes
salt = replicate 32 1

abbrev auth : UnderlayAuth
auth = record {
  iv = salt;
  psk = key;
  metadata = record { network = udp; hostname = 49 ∷ []; port = 53; uuid = [] };
  uuid = [];
}

abbrev world : World
world = record { opens = λ n target. true; sends = λ n payload. true }

abbrev state : Underlay
state = record {
  in_flight = record { ttl = 5; evict_timeout = 1; auth = (salt, (auth, 7)) ∷ []; waiting = [] };
  sessions = [];
  udp_pool = [];
  relays = [];
  fresh = 4;
  sent = [];
}

abbrev datagram : ℕ → Bool → Datagram
datagram b permit = record {
  plain = b ∷ [];
  salt = salt;
  packet = salt ++ ((b ∷ []) ++ small_tag);
  permit = permit;
}

abbrev sealed_datagram :
    (b : ℕ) (permit : Bool)
    → IsDeliverable small_aead small_aead-AeadLaws world key 4 (datagram b permit)
unfolding encrypt_in_place
sealed_datagram b permit = record {
  sealed = record { salted = refl; nonempty = refl; seals = refl };
  takes = refl;
}

run_underlay_packet_loop-sealed_example :
    (run_underlay_packet_loop small_aead world true
      (arrival 9 (datagram 5 true) ∷ (handled 0 ∷ (arrival 9 (datagram 6 false) ∷ [])))
      (record { state = state; tasks = [] })).state.sent
    ≡ map (onward (new_endpoint auth state)) (datagram 5 true ∷ datagram 6 false ∷ [])
unfolding derive_subkey juicity_rs.Base.find juicity_rs.Base.Bytes-discrete
run_underlay_packet_loop-sealed_example =
    run_underlay_packet_loop-sealed small_aead small_aead-AeadLaws world key 9 true
      (datagram 5 true) (datagram 6 false ∷ []) auth state
      (record {
        inserted_at = 7;
        no_session = refl;
        not_pooled = refl;
        stored = refl;
        derived = refl;
        open_port = refl;
        permitted = refl;
        opens = refl;
      })
      (sealed_datagram 5 true, (sealed_datagram 6 false, tt))

abbrev after_packet : Underlay
after_packet =
    (receive_packet small_aead world 9 true true (salt ++ ((5 ∷ []) ++ small_tag)) state).0

receive_packet-Admits_example :
    (after_packet.sent ≡ [])
    ⊎ IsAdmitted small_aead world true (salt ++ ((5 ∷ []) ++ small_tag)) state after_packet
unfolding juicity_rs.Base.find
receive_packet-Admits_example =
    receive_packet-Admits small_aead world 9 true true (salt ++ ((5 ∷ []) ++ small_tag)) state refl

-- A source with a session under another key, and the packet for which the table has an
-- authentication.
abbrev live : UnderlaySession
live = record { target = (49 ∷ [], 53); cipher = replicate 32 4; relay_abort = some 5 }

abbrev live_state : Underlay
live_state = record state { sessions = (9, live) ∷ [] }

abbrev first_packet : Bytes
first_packet = salt ++ ((5 ∷ []) ++ small_tag)

abbrev after_rekey : Underlay
after_rekey = (receive_packet small_aead world 9 true true first_packet live_state).0

receive_packet_bound_example :
    (after_rekey.in_flight ≡ live_state.in_flight)
    × ((after_rekey.sessions ≡ live_state.sessions)
        ⊎ (after_rekey.sessions ≡ del ℕ_discrete 9 live_state.sessions))
    × ((after_rekey.sent ≡ [])
        ⊎ ((endpoint : Endpoint) × (plain : Bytes) × (decrypt_in_place small_aead live.cipher
                first_packet
              ≡ ok plain)
            × (after_rekey.sent ≡ [] ++ ((endpoint, drop salt_len plain) ∷ []))))
unfolding juicity_rs.Base.find ℕ_discrete
receive_packet_bound_example =
    receive_packet_bound small_aead world 9 live first_packet true true live_state refl

abbrev random_bytes : Bytes
random_bytes = replicate 1920 7

relay_back-open_reply_example :
    (map
        (open_reply small_aead key)
        (relay_back small_aead key [] (random_bytes ∷ []) ((8 ∷ []) ∷ []))
      ≡ map some ((8 ∷ []) ∷ []))
    × All
        (λ packet. is_probably_quic_packet packet ≡ false)
        (relay_back small_aead key [] (random_bytes ∷ []) ((8 ∷ []) ∷ []))
relay_back-open_reply_example =
    relay_back-open_reply small_aead small_aead-AeadLaws key (λ plain. ((plain, small_tag), refl))
      ((8 ∷ []) ∷ []) [] (random_bytes ∷ []) (refl, tt) tt (omega arith, tt) (omega arith)
