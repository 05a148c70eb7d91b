-- ===== src/Tests/Server.antt =====
-- The server's theorems at concrete runs.
use juicity_rs.Base.{
  if◌then◌else◌, ℕ, ◌+◌, ◌≤◌, ◌<◌, ◌≡◌, refl, List, [], ◌∷◌, ◌++◌, some, none, Bool, true, false,
  Bytes, length, replicate, All, arith, take, retain, ◌-◌,
}
use juicity_rs.Protocol.Wire.{UnderlayAuth, SocketAddr, sock_v4, udp}
use juicity_rs.Server.InFlight.{
  InFlight, Packet, System, Reach, here, next, arrives, stores_auth, advances, start, looking,
  registering, claimed, parked, finished, advance, store, wake, with_phase,
}
use juicity_rs.Server.InFlight.Once.{taken, held, count, Reach-taken-le-stores}
use juicity_rs.Server.InFlight.Capacity.{IsBounded, Reach-IsBounded}
use juicity_rs.Server.InFlight.Wakeups.{IsWatched, Reach-IsWatched}
use juicity_rs.Server.Demux.{Batch, Channel, Socket, segments, ready, demux_batches}
use juicity_rs.Server.Demux.Segments.{IsSegment, joined, segments_partition}
use juicity_rs.Server.Demux.Kept.{underlay_packets, looks_like_quic, demux_batches_lem}

abbrev auth : UnderlayAuth
auth = record {
  iv = replicate 32 1;
  psk = replicate 32 2;
  metadata = record { network = udp; hostname = b'a' ∷ []; port = 53; uuid = replicate 16 0 };
  uuid = replicate 16 0;
}

abbrev key : Bytes
key = 1 ∷ 2 ∷ []

abbrev packet : Packet
packet = record { key = key; deadline = 5; verifies = λ a. true; phase = looking }

abbrev table : InFlight
table = record { ttl = 9; evict_timeout = 5; auth = []; waiting = [] }

-- A packet has come before its authentication and waits.
abbrev waiting_packet : System
waiting_packet = record {
  table = record table { waiting = (key, (7, 2)) ∷ [] };
  packets = with_phase packet (parked 7) ∷ [];
  stores = [];
}

abbrev registered : Reach (start 9 5) waiting_packet
unfolding advance juicity_rs.Base.find juicity_rs.Base.put
registered =
    next (next (next here (arrives packet refl refl)) (advances 1 7 [] [] packet refl refl))
      (advances 2 7 [] [] (with_phase packet registering) refl refl)

-- The authentication comes, and the packet takes it.
abbrev served_packet : System
served_packet = record {
  table = table;
  packets = with_phase packet (finished (some auth)) ∷ [];
  stores = key ∷ [];
}

abbrev served : Reach (start 9 5) served_packet
unfolding advance store wake juicity_rs.Base.find juicity_rs.Base.put juicity_rs.Base.del
    juicity_rs.Base.Bytes-discrete juicity_rs.Base.decide_bytes
served =
    next
      (next (next registered (stores_auth 3 key auth refl)) (advances 4 8 [] [] packet refl refl))
      (advances 4 8 [] [] (with_phase packet (claimed auth 3)) refl refl)

Reach-taken-le-stores_example :
    taken key served_packet.packets + held key served_packet.table.auth
    ≤ count key served_packet.stores
Reach-taken-le-stores_example = Reach-taken-le-stores 9 5 served key

Reach-IsBounded_example : IsBounded served_packet.table
Reach-IsBounded_example = Reach-IsBounded 9 5 served

Reach-IsWatched_example : All (IsWatched waiting_packet.table) waiting_packet.packets
Reach-IsWatched_example = Reach-IsWatched 9 5 registered

abbrev peer : SocketAddr
peer = sock_v4 (10 ∷ 0 ∷ 0 ∷ 1 ∷ []) 4000

-- Five bytes that do not look like QUIC, in datagrams of two.
abbrev batch : Batch
batch = record { buf = 1 ∷ 2 ∷ 3 ∷ 4 ∷ 5 ∷ []; addr = peer; len = 5; stride = 2 }

abbrev channel : Channel
channel = record { queue = []; capacity = 2; closed = false; dropped = 0 }

segments_partition_example :
    (joined (segments 5 batch 0) ≡ 1 ∷ 2 ∷ 3 ∷ 4 ∷ 5 ∷ [])
    × All (IsSegment batch) (segments 5 batch 0)
segments_partition_example = segments_partition batch (omega arith)

abbrev socket : Socket
socket = record {
  idle_poll_count = 1;
  channel = channel;
  inner = ready (batch ∷ []) ∷ ready (batch ∷ []) ∷ ready (batch ∷ []) ∷ [];
}

abbrev quic_batch : Batch
quic_batch = record { buf = 0x40 ∷ 2 ∷ []; addr = peer; len = 2; stride = 2 }

demux_batches_lem_example :
    ((demux_batches channel (batch ∷ quic_batch ∷ [])).0
      ≡ retain looks_like_quic (batch ∷ quic_batch ∷ []))
    × ((demux_batches channel (batch ∷ quic_batch ∷ [])).1.queue
        ≡ channel.queue
          ++ take
              (if channel.closed then 0 else channel.capacity - length channel.queue)
              (underlay_packets (batch ∷ quic_batch ∷ [])))
    × ((demux_batches channel (batch ∷ quic_batch ∷ [])).1.dropped
        ≡ channel.dropped
          + (length (underlay_packets (batch ∷ quic_batch ∷ []))
              - (if channel.closed then 0 else channel.capacity - length channel.queue)))
demux_batches_lem_example = demux_batches_lem channel (batch ∷ quic_batch ∷ [])
