-- ===== src/Server/Demux.antt =====
-- server/src/underlay_socket.rs: the demultiplexer in front of Quinn's socket.
pub mod Segments
pub mod Kept
pub mod Flood
use Prim.Native.Nat.{bit_and}
use juicity_rs.Base.{
  ℕ, zero, suc, ◌+◌, ◌-◌, ◌*◌, List, [], ◌∷◌, ◌++◌, Option, none, some, Bool, true, false, Bytes,
  length, get_elem?, not, ◌&&◌, take, drop, ltb, leb, if◌then◌else◌, ◌==◌, min, max, map,
}
use juicity_rs.Protocol.Wire.{SocketAddr}

unfoldable pub is_probably_quic_packet : Bytes → Bool
is_probably_quic_packet [] = false
is_probably_quic_packet (first ∷ packet) = bit_and first 0x40 == 0x40

pub record UnderlayPacket : Type 0 where
  pub peer : SocketAddr
  pub payload : Bytes

-- One receive buffer with its `RecvMeta`: `len` bytes are valid, in datagrams of `stride` bytes.
pub record Batch : Type 0 where
  pub buf : Bytes
  pub addr : SocketAddr
  pub len : ℕ
  pub stride : ℕ

abbrev pub max_demux_batches_per_poll : ℕ
max_demux_batches_per_poll = 2

abbrev pub max_idle_poll_before_yield : ℕ
max_idle_poll_before_yield = 1

-- The `while offset < meta[i].len` loop: the payloads of one buffer, in order. The fuel is the
-- length, and each round takes a stride of at least one byte.
unfoldable pub segments : ℕ → Batch → ℕ → List UnderlayPacket
segments zero b offset = []
segments (suc fuel) b offset =
    let end = min (offset + max b.stride 1) b.len in
    let rest = segments fuel b end in
    if ltb offset b.len
    then (record { peer = b.addr; payload = take (end - offset) (drop offset b.buf) }) ∷ rest
    else []

-- The channel of bounded capacity, whether its receiver is gone, and the count of dropped packets.
pub record Channel : Type 0 where
  pub queue : List UnderlayPacket
  pub capacity : ℕ
  pub closed : Bool
  pub dropped : ℕ

-- `try_send`, with the drop counter of its error branch, for a full channel and for a closed one.
unfoldable pub try_send : Channel → UnderlayPacket → Channel
try_send ch p =
    if not ch.closed && ltb (length ch.queue) ch.capacity
    then record ch { queue = ch.queue ++ (p ∷ []) }
    else record ch { dropped = ch.dropped + 1 }

unfoldable pub send_all : Channel → List UnderlayPacket → Channel
unfolding try_send
send_all ch [] = ch
send_all ch (p ∷ ps) = send_all (try_send ch p) ps

unfoldable pub first_packet : Batch → Bytes
first_packet b = take (min b.stride b.len) b.buf

unfoldable pub replace_at : List Batch → ℕ → Batch → List Batch
replace_at [] n b = []
replace_at (x ∷ xs) zero b = b ∷ xs
replace_at (x ∷ xs) (suc n) b = x ∷ replace_at xs n b

-- `bufs.swap(keep, i); meta.swap(keep, i);`
unfoldable pub swap_batches : ℕ → ℕ → List Batch → List Batch
unfolding replace_at
swap_batches keep i bs = elim (get_elem? bs keep) [
  | none ↦ bs
  | some x ↦ elim (get_elem? bs i) [ none ↦ bs | some y ↦ replace_at (replace_at bs keep y) i x ]
]

-- The `for i in 0..msgs` loop, with the number of rounds to come: `keep`, the buffers after the swaps,
-- and the channel.
unfoldable pub demux_from : ℕ → ℕ → ℕ → Channel → List Batch → (ℕ × List Batch) × Channel
unfolding is_probably_quic_packet first_packet segments send_all swap_batches
demux_from zero keep i ch bs = ((keep, bs), ch)
demux_from (suc n) keep i ch bs = elim (get_elem? bs i) [
  | none ↦ ((keep, bs), ch)
  | some b ↦
      let quic = is_probably_quic_packet (first_packet b) in
      demux_from n (if quic then keep + 1 else keep) (i + 1)
        (if quic then ch else send_all ch (segments b.len b 0))
        (if quic && not (keep == i) then swap_batches keep i bs else bs)
]

-- The buffers that Quinn reads, the first `keep`, and the channel.
unfoldable pub demux_batches : Channel → List Batch → List Batch × Channel
unfolding demux_from
demux_batches ch bs =
    let ((keep, swapped), ch') = demux_from (length bs) 0 0 ch bs in (take keep swapped, ch')

-- What the wrapped socket answers to the polls to come; at the end of the list it is pending.
pub data Inner : Type 0 where
  pending failed : Inner
  ready : List Batch → Inner

-- `Poll::Pending`, with whether the task was woken, or an answer for Quinn.
pub data Poll : Type 0 where
  waiting : Bool → Poll
  io_error : Poll
  packets : List Batch → Poll

pub record Socket : Type 0 where
  pub idle_poll_count : ℕ
  pub channel : Channel
  pub inner : List Inner

-- After the loop, when the batch budget is spent and no QUIC packet was found.
unfoldable pub give_up : Socket → Poll × Socket
give_up s =
    if leb max_idle_poll_before_yield s.idle_poll_count
    then (waiting false, record s { idle_poll_count = 0 })
    else (waiting true, record s { idle_poll_count = s.idle_poll_count + 1 })

-- The loop of `poll_recv`, by the rounds that are left of its budget.
unfoldable pub poll_rounds : ℕ → ℕ → Channel → List Inner → Poll × Socket
unfolding give_up demux_batches
poll_rounds zero idle ch inner =
    give_up (record { idle_poll_count = idle; channel = ch; inner = inner })
poll_rounds (suc n) idle ch [] =
    (waiting false, record { idle_poll_count = 0; channel = ch; inner = [] })
poll_rounds (suc n) idle ch (pending ∷ inner) =
    (waiting false, record { idle_poll_count = 0; channel = ch; inner = inner })
poll_rounds (suc n) idle ch (failed ∷ inner) =
    (io_error, record { idle_poll_count = idle; channel = ch; inner = inner })
poll_rounds (suc n) idle ch (ready batches ∷ inner) =
    let (kept, ch') = demux_batches ch batches in
    let more = poll_rounds n idle ch' inner in
    if ltb 0 (length kept)
    then (packets kept, record { idle_poll_count = 0; channel = ch'; inner = inner })
    else more

unfoldable pub poll_recv : Socket → Poll × Socket
unfolding poll_rounds
poll_recv s = poll_rounds max_demux_batches_per_poll s.idle_poll_count s.channel s.inner
