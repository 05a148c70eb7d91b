-- ===== src/Tests/Associate.antt =====
-- UDP ASSOCIATE at a concrete run: two datagrams of one source, the second on the open stream.
use native.Mathlib.Decide.{ℕ_discrete}
use juicity_rs.Base.{ℕ, ◌≡◌, refl, List, [], ◌∷◌, ◌++◌, true, false, All}
use juicity_rs.Socks.{UdpOutboundDatagram}
use juicity_rs.Associate.{
  Stream, Opener, Associate, receive, Reach, here, next, receives, opens, drops_guard, start,
}
use juicity_rs.Associate.Ordered.{IsOrderedStream, Reach-IsOrderedStream}
use juicity_rs.Associate.SingleOpen.{openers_of, claimed, Reach-openers_of}

abbrev datagram : ℕ → UdpOutboundDatagram
datagram b = record { addr = 49 ∷ []; port = 53; payload = b ∷ [] }

abbrev opener : Opener
opener = record { source = 3; id = 1; first = datagram 5; connecting = true }

abbrev running : Associate
running = record {
  sessions = (3, record { id = 1; last_used_epoch_ms = 20 }) ∷ [];
  opening = 3 ∷ [];
  session_seq = 2;
  openers = (record opener { connecting = false }) ∷ [];
  streams =
      (record {
        source = 3;
        id = 1;
        written = datagram 5 ∷ [];
        queue = datagram 6 ∷ [];
        is_open = true;
      })
      ∷ [];
  received = (3, datagram 5) ∷ ((3, datagram 6) ∷ []);
}

abbrev run : Reach start running
unfolding receive juicity_rs.Associate.insert_session ℕ_discrete juicity_rs.Base.find
    juicity_rs.Base.put
run =
    next (next (next here (receives 10 3 (datagram 5) refl)) (opens 15 [] [] opener refl refl refl))
      (receives 20 3 (datagram 6) refl)

Reach-IsOrderedStream_example : All (IsOrderedStream running.received) running.streams
Reach-IsOrderedStream_example = Reach-IsOrderedStream run

Reach-openers_of_example : openers_of 3 running.openers ≡ claimed 3 running.opening
Reach-openers_of_example = Reach-openers_of run 3
