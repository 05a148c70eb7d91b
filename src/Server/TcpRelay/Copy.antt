-- ===== src/Server/TcpRelay/Copy.antt =====
-- server/src/tcp.rs: what one direction of the relay delivers.
use mathlib.Core.Path.{subst}
use juicity_rs.Base.{
  ℕ, zero, suc, ◌+◌, ◌≡◌, refl, ◌∙◌, sym, ap, List, [], ◌∷◌, ◌++◌, append_assoc, Bytes, take, drop,
  take-append-drop, arith, Bool, true, false,
}
use juicity_rs.Server.TcpRelay.{
  Read, bytes, read_fails, Write, took, write_fails, Outcome, shut_down, Copied, then_copied, Chunk,
  drained, stopped, then_chunk, after_chunk, write_remaining, shutdown, copy_direction,
}

-- The bytes that are read before the end of the file or an error.
unfoldable pub received : List Read → Bytes
received [] = []
received (read_fails e ∷ reads) = []
received (bytes elapsed [] ∷ reads) = []
received (bytes elapsed (b ∷ buf) ∷ reads) = (b ∷ buf) ++ received reads

-- Whether the reader comes to the end of the file.
unfoldable pub is_closed : List Read → Bool
is_closed [] = false
is_closed (read_fails e ∷ reads) = false
is_closed (bytes elapsed [] ∷ reads) = true
is_closed (bytes elapsed (b ∷ buf) ∷ reads) = is_closed reads

unfoldable pub is_shut_down : Outcome → Bool
is_shut_down shut_down = true
is_shut_down _ = false

-- A part of the bytes from their front on was written, all of them if the copy shut down.
pub record IsPartOf (sent : Bytes) (copied : Copied) : Type 0 where
  pub rest : Bytes
  pub prefix : copied.written ++ rest ≡ sent
  pub complete : is_shut_down copied.outcome ≡ true → rest ≡ []

-- What is drained is the whole buffer, and an inner loop that stops does not shut down.
abbrev IsChunkOf : Bytes → Chunk → Type 0
IsChunkOf buf (drained written activity writes) = written ≡ buf
IsChunkOf buf (stopped copied) =
    (rest : Bytes) × (copied.written ++ rest ≡ buf) × (is_shut_down copied.outcome ≡ false)

then_chunk-IsChunkOf :
    (written buf : Bytes) (stamp : ℕ) (c : Chunk)
    → IsChunkOf buf c
    → IsChunkOf (written ++ buf) (then_chunk written stamp c)
unfolding then_chunk then_copied
then_chunk-IsChunkOf written buf stamp (drained rest activity writes) h = ap (λ r. written ++ r) h
then_chunk-IsChunkOf written buf stamp (stopped copied) (rest, e, live) =
    (rest, append_assoc written copied.written rest ∙ ap (λ r. written ++ r) e, live)

write_remaining-IsChunkOf :
    (buf : Bytes) (writes : List Write) → IsChunkOf buf (write_remaining buf writes)
unfolding write_remaining is_shut_down
write_remaining-IsChunkOf [] writes = refl
write_remaining-IsChunkOf (b ∷ buf) [] = (b ∷ buf, refl, refl)
write_remaining-IsChunkOf (b ∷ buf) (write_fails e ∷ writes) = (b ∷ buf, refl, refl)
write_remaining-IsChunkOf (b ∷ buf) (took elapsed zero ∷ writes) = (b ∷ buf, refl, refl)
write_remaining-IsChunkOf (b ∷ buf) (took elapsed (suc n) ∷ writes) =
    let whole : b ∷ (take n buf ++ drop n buf) ≡ b ∷ buf =
      ap (λ r. b ∷ r) (take-append-drop n buf) in
    subst
      (λ r.
        IsChunkOf r
          (then_chunk (b ∷ take n buf) (elapsed + 1) (write_remaining (drop n buf) writes)))
      whole
      (then_chunk-IsChunkOf (b ∷ take n buf) (drop n buf) (elapsed + 1)
        (write_remaining (drop n buf) writes) (write_remaining-IsChunkOf (drop n buf) writes))

then_copied-IsPartOf :
    (written sent : Bytes) (activity : List ℕ) (copied : Copied)
    → IsPartOf sent copied
    → IsPartOf (written ++ sent) (then_copied written activity copied)
unfolding then_copied
then_copied-IsPartOf written sent activity copied h = record {
  rest = h.rest;
  prefix = append_assoc written copied.written h.rest ∙ ap (λ r. written ++ r) h.prefix;
  complete = h.complete;
}

shutdown-IsPartOf : (writes : List Write) → IsPartOf [] (shutdown writes)
unfolding shutdown
shutdown-IsPartOf [] = record { rest = []; prefix = refl; complete = λ h. refl }
shutdown-IsPartOf (write_fails e ∷ writes) = record {
  rest = [];
  prefix = refl;
  complete = λ h. refl;
}
shutdown-IsPartOf (took elapsed n ∷ writes) = record {
  rest = [];
  prefix = refl;
  complete = λ h. refl;
}

after_chunk-IsPartOf :
    (stamp : ℕ) (buf sent : Bytes) (c : Chunk) (next : List Write → Copied)
    → IsChunkOf buf c
    → ((writes : List Write) → IsPartOf sent (next writes))
    → IsPartOf (buf ++ sent) (after_chunk stamp c next)
unfolding after_chunk
after_chunk-IsPartOf stamp buf sent (drained written activity writes) next h part =
    subst (λ r. IsPartOf (r ++ sent) (then_copied written (stamp ∷ activity) (next writes))) h
      (then_copied-IsPartOf written sent (stamp ∷ activity) (next writes) (part writes))
after_chunk-IsPartOf stamp buf sent (stopped copied) next (rest, e, live) part =
    then_copied-IsPartOf [] (buf ++ sent) (stamp ∷ []) copied (record {
      rest = rest ++ sent;
      prefix = sym (append_assoc copied.written rest sent) ∙ ap (λ r. r ++ sent) e;
      complete = λ shut. ground (arith, live, shut);
    })

-- Whatever the reader and the writer answer, what the writer took is the front of what was read,
-- nothing lost, repeated or reordered; and if the copy shuts the writer down, it is all of it.
pub copy_direction-IsPartOf :
    (reads : List Read) (writes : List Write)
    → IsPartOf (received reads) (copy_direction reads writes)
unfolding received copy_direction
copy_direction-IsPartOf [] writes = record { rest = []; prefix = refl; complete = λ h. refl }
copy_direction-IsPartOf (read_fails e ∷ reads) writes = record {
  rest = [];
  prefix = refl;
  complete = λ h. refl;
}
copy_direction-IsPartOf (bytes elapsed [] ∷ reads) writes = shutdown-IsPartOf writes
copy_direction-IsPartOf (bytes elapsed (b ∷ buf) ∷ reads) writes =
    after_chunk-IsPartOf (elapsed + 1) (b ∷ buf) (received reads) (write_remaining (b ∷ buf) writes)
      (copy_direction reads) (write_remaining-IsChunkOf (b ∷ buf) writes)
      (λ writes'. copy_direction-IsPartOf reads writes')
