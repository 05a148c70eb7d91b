-- ===== src/Server/Demux/Segments.antt =====
-- server/src/underlay_socket.rs: how a received buffer is cut into packets.
use juicity_rs.Base.{
  ℕ, zero, suc, ◌+◌, ◌-◌, ◌<◌, ◌≤◌, ◌≡◌, refl, List, [], ◌∷◌, ◌++◌, Bytes, length, length-take,
  length-drop, take, drop, ltb, min, max, All, arith, Bool-cases, inl, inr, ltb→lt, window-append,
  drop-eq-nil,
}
use juicity_rs.Server.Demux.{UnderlayPacket, Batch, segments}

-- The payloads one after the other.
abbrev pub joined : List UnderlayPacket → Bytes
joined [] = []
joined (p ∷ ps) = p.payload ++ joined ps

-- A packet of the buffer's source, of at least one byte and at most a stride.
pub record IsSegment (b : Batch) (p : UnderlayPacket) : Type 0 where
  pub peer : p.peer ≡ b.addr
  pub nonempty : 0 < length p.payload
  pub short : length p.payload ≤ max b.stride 1

joined-segments :
    (fuel : ℕ) (b : Batch) (offset : ℕ)
    → b.len ≤ offset + fuel
    → joined (segments fuel b offset) ≡ drop offset (take b.len b.buf)
unfolding segments
joined-segments zero b offset h =
    let short : length (take b.len b.buf) ≤ offset = omega (arith, length-take b.len b.buf) in
    ground (arith, drop-eq-nil offset (take b.len b.buf) short)
joined-segments (suc fuel) b offset h = elim (Bool-cases (ltb offset b.len)) [
  | inl more ↦
      let end = min (offset + max b.stride 1) b.len in
      let lt = ltb→lt offset b.len more in
      rw (more, joined-segments fuel b end (omega arith))
        (window-append offset end b.len b.buf (omega arith) (omega arith))
  | inr done ↦
      let le : b.len ≤ offset = ground arith in
      let short : length (take b.len b.buf) ≤ offset = omega (arith, length-take b.len b.buf) in
      ground (arith, drop-eq-nil offset (take b.len b.buf) short)
]

segments-IsSegment :
    (fuel : ℕ) (b : Batch) (offset : ℕ)
    → b.len ≤ length b.buf
    → All (IsSegment b) (segments fuel b offset)
unfolding segments
segments-IsSegment zero b offset h = tt
segments-IsSegment (suc fuel) b offset h = elim (Bool-cases (ltb offset b.len)) [
  | inl more ↦
      let end = min (offset + max b.stride 1) b.len in
      let lt = ltb→lt offset b.len more in
      let size = length-take (end - offset) (drop offset b.buf) in
      let left = length-drop offset b.buf in
      rw more (
        record { peer = refl; nonempty = omega arith; short = omega arith },
        segments-IsSegment fuel b end h,
      )
  | inr done ↦ rw done tt
]

-- Where the valid bytes are within the buffer, the packets cut from it make up its `len` valid bytes, none of them is empty or longer
-- than the stride, and all carry the buffer's source: the loop's fuel suffices.
pub segments_partition :
    (b : Batch)
    → b.len ≤ length b.buf
    → (joined (segments b.len b 0) ≡ take b.len b.buf) × All (IsSegment b) (segments b.len b 0)
segments_partition b h = (joined-segments b.len b 0 (omega arith), segments-IsSegment b.len b 0 h)
