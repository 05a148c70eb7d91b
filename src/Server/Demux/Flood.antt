-- ===== src/Server/Demux/Flood.antt =====
-- server/src/underlay_socket.rs: what one poll does to a run of packets that are not QUIC.
use juicity_rs.Base.{ℕ, zero, suc, ◌<◌, ◌≤◌, ◌≡◌, List, [], ◌∷◌, false, length, arith}
use juicity_rs.Server.Demux.{
  Batch, Channel, demux_batches, Inner, pending, failed, ready, waiting, packets, Socket,
  poll_rounds, poll_recv, max_idle_poll_before_yield,
}

-- Two polls' worth of buffers without a QUIC packet, on a socket that has been idle before: the
-- poll answers `Pending`, wakes nobody, and leaves the rest of the input where it is, although
-- the wrapped socket never answered `Pending` and so holds no waker.
pub flood_sleeps :
    (s : Socket) (b1 b2 : List Batch) (rest : List Inner)
    → s.inner ≡ ready b1 ∷ ready b2 ∷ rest
    → (demux_batches s.channel b1).0 ≡ []
    → (demux_batches (demux_batches s.channel b1).1 b2).0 ≡ []
    → max_idle_poll_before_yield ≤ s.idle_poll_count
    → ((poll_recv s).0 ≡ waiting false) × ((poll_recv s).1.inner ≡ rest)
unfolding poll_recv
flood_sleeps s b1 b2 rest hs h1 h2 hi = ground arith

-- However many rounds are left, a poll that answers with packets answers with some, and resets the idle count.
pub poll_rounds-packets :
    (n idle : ℕ) (ch : Channel) (inner : List Inner) (kept : List Batch)
    → (poll_rounds n idle ch inner).0 ≡ packets kept
    → (0 < length kept) × ((poll_rounds n idle ch inner).1.idle_poll_count ≡ 0)
unfolding poll_rounds
poll_rounds-packets zero idle ch inner kept h = absurd (ground arith)
poll_rounds-packets (suc n) idle ch [] kept h = cc
poll_rounds-packets (suc n) idle ch (pending ∷ inner) kept h = cc
poll_rounds-packets (suc n) idle ch (failed ∷ inner) kept h = cc
poll_rounds-packets (suc n) idle ch (ready bs ∷ inner) kept h =
    ground (arith, poll_rounds-packets n idle (demux_batches ch bs).1 inner kept)
