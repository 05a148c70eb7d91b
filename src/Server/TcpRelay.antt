-- ===== src/Server/TcpRelay.antt =====
-- server/src/tcp.rs: the relay of a TCP stream. What a socket or stream answers to each read and
-- write is an argument, with the milliseconds since `base`; `activity` is the list of the values
-- stored in it.
pub mod Copy
pub mod Finish
pub mod Watchdog
use juicity_rs.Base.{
  ℕ, zero, suc, ◌+◌, List, [], ◌∷◌, ◌++◌, Option, none, some, Bytes, take, drop, leb, ◌==◌,
  if◌then◌else◌, Bool, true, false,
}

pub data IoError : Type 0 where
  failed : ℕ → IoError
  write_zero : IoError

-- The answer to a read: bytes, none of them at the end of the file, or an error.
pub data Read : Type 0 where
  bytes : (elapsed : ℕ) → Bytes → Read
  read_fails : ℕ → Read

-- The answer to a write: how many bytes it took, or an error.
pub data Write : Type 0 where
  took : (elapsed n : ℕ) → Write
  write_fails : ℕ → Write

-- A copy waits for an answer, has failed, or has shut its writer down at the end of the file.
pub data Outcome : Type 0 where
  pending shut_down : Outcome
  broke : IoError → Outcome

-- The bytes that the writer took, the values stored in `activity`, and how it ended.
pub record Copied : Type 0 where
  pub written : Bytes
  pub activity : List ℕ
  pub outcome : Outcome

-- What a part of the copy did, before the rest.
unfoldable pub then_copied : Bytes → List ℕ → Copied → Copied
then_copied written activity rest = record {
  written = written ++ rest.written;
  activity = activity ++ rest.activity;
  outcome = rest.outcome;
}

-- The inner loop, and what the writer answers after it, or how the copy ended within it.
pub data Chunk : Type 0 where
  drained : Bytes → List ℕ → List Write → Chunk
  stopped : Copied → Chunk

unfoldable pub then_chunk : Bytes → ℕ → Chunk → Chunk
unfolding then_copied
then_chunk written stamp (drained rest activity writes) =
    drained (written ++ rest) (stamp ∷ activity) writes
then_chunk written stamp (stopped rest) = stopped (then_copied written (stamp ∷ []) rest)

-- `while !remaining.is_empty()`
unfoldable pub write_remaining : Bytes → List Write → Chunk
unfolding then_chunk
write_remaining [] writes = drained [] [] writes
write_remaining (b ∷ remaining) [] =
    stopped (record { written = []; activity = []; outcome = pending })
write_remaining (b ∷ remaining) (write_fails e ∷ writes) =
    stopped (record { written = []; activity = []; outcome = broke (failed e) })
write_remaining (b ∷ remaining) (took elapsed zero ∷ writes) =
    stopped (record { written = []; activity = []; outcome = broke write_zero })
write_remaining (b ∷ remaining) (took elapsed (suc n) ∷ writes) =
    then_chunk (b ∷ take n remaining) (elapsed + 1) (write_remaining (drop n remaining) writes)

-- The end of a copy whose reader is at the end of the file: `writer.shutdown()`.
unfoldable pub shutdown : List Write → Copied
shutdown [] = record { written = []; activity = []; outcome = pending }
shutdown (write_fails e ∷ writes) = record {
  written = [];
  activity = [];
  outcome = broke (failed e);
}
shutdown (took elapsed n ∷ writes) = record { written = []; activity = []; outcome = shut_down }

-- A round of the copy, and what comes after it.
unfoldable pub after_chunk : ℕ → Chunk → (List Write → Copied) → Copied
unfolding then_copied
after_chunk stamp (drained written activity writes) next =
    then_copied written (stamp ∷ activity) (next writes)
after_chunk stamp (stopped rest) next = then_copied [] (stamp ∷ []) rest

-- `copy_direction`
unfoldable pub copy_direction : List Read → List Write → Copied
unfolding after_chunk write_remaining shutdown
copy_direction [] writes = record { written = []; activity = []; outcome = pending }
copy_direction (read_fails e ∷ reads) writes = record {
  written = [];
  activity = [];
  outcome = broke (failed e);
}
copy_direction (bytes elapsed [] ∷ reads) writes = shutdown writes
copy_direction (bytes elapsed (b ∷ buf) ∷ reads) writes =
    after_chunk (elapsed + 1) (write_remaining (b ∷ buf) writes) (copy_direction reads)

-- `activity` at an instant: the last value stored by then, in a list in the order of the stores.
unfoldable pub activity_at : ℕ → ℕ → List ℕ → ℕ
activity_at now last [] = last
activity_at now last (v ∷ vs) = if leb v now then activity_at now v vs else last

-- The loop of `idle`, with the deadline at which it breaks.
unfoldable pub idle : ℕ → List ℕ → ℕ → ℕ → Option ℕ
unfolding activity_at
idle idle_timeout activity zero last = none
idle idle_timeout activity (suc fuel) last =
    let current = activity_at (last + idle_timeout) 1 activity in
    let rest = idle idle_timeout activity fuel current in
    if current == last then some (last + idle_timeout) else rest
