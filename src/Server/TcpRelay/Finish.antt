-- ===== src/Server/TcpRelay/Finish.antt =====
-- server/src/tcp.rs: when one direction of the relay comes to its end.
use juicity_rs.Base.{
  ℕ, zero, suc, ◌+◌, ◌≤◌, ◌<◌, ◌≡◌, refl, ◌∙◌, sym, ap, List, [], ◌∷◌, ◌++◌, append-nil, All, Bytes,
  drop, take-append-drop, length, length-append, length-drop, arith, true,
}
use juicity_rs.Server.TcpRelay.{
  Read, bytes, read_fails, Write, took, write_fails, shut_down, then_copied, Chunk, drained,
  then_chunk, after_chunk, write_remaining, copy_direction,
}
use juicity_rs.Server.TcpRelay.Copy.{received, is_closed, is_shut_down, copy_direction-IsPartOf}

-- An answer of a writer that takes at least a byte.
abbrev pub IsProgress : Write → Type 0
IsProgress (took elapsed n) = 0 < n
IsProgress (write_fails e) = 1 ≤ 0

-- An inner loop that drains its buffer takes one answer at most for each byte.
record IsDrained (buf : Bytes) (writes : List Write) (c : Chunk) : Type 0 where
  activity : List ℕ
  left : List Write
  progress : All IsProgress left
  enough : length writes ≤ length left + length buf
  drains : c ≡ drained buf activity left

write_remaining-IsDrained :
    (buf : Bytes) (writes : List Write)
    → All IsProgress writes
    → length buf ≤ length writes
    → IsDrained buf writes (write_remaining buf writes)
unfolding write_remaining then_chunk
write_remaining-IsDrained [] writes p h = record {
  activity = [];
  left = writes;
  progress = p;
  enough = omega arith;
  drains = refl;
}
write_remaining-IsDrained (b ∷ buf) [] p h = absurd (omega (arith, h))
write_remaining-IsDrained (b ∷ buf) (write_fails e ∷ writes) (p, ps) h = absurd (omega (arith, p))
write_remaining-IsDrained (b ∷ buf) (took elapsed zero ∷ writes) (p, ps) h =
    absurd (omega (arith, p))
write_remaining-IsDrained (b ∷ buf) (took elapsed (suc n) ∷ writes) (p, ps) h =
    let d =
      write_remaining-IsDrained (drop n buf) writes ps (omega (arith, h, length-drop n buf)) in
    record {
      activity = (elapsed + 1) ∷ d.activity;
      left = d.left;
      progress = d.progress;
      enough = omega (arith, d.enough, length-drop n buf);
      drains =
          rw (d.drains) (
            ap (λ r. drained (b ∷ r) ((elapsed + 1) ∷ d.activity) d.left) (take-append-drop n buf));
    }

shuts_down :
    (reads : List Read) (writes : List Write)
    → is_closed reads ≡ true
    → All IsProgress writes
    → length (received reads) < length writes
    → (copy_direction reads writes).outcome ≡ shut_down
unfolding copy_direction received is_closed
shuts_down [] writes closed p h = ground (arith, closed)
shuts_down (read_fails e ∷ reads) writes closed p h = ground (arith, closed)
shuts_down (bytes elapsed [] ∷ reads) [] closed p h = absurd (omega (arith, h))
shuts_down (bytes elapsed [] ∷ reads) (write_fails e ∷ writes) closed (p, ps) h =
    absurd (omega (arith, p))
shuts_down (bytes elapsed [] ∷ reads) (took at n ∷ writes) closed (p, ps) h = refl
shuts_down (bytes elapsed (b ∷ buf) ∷ reads) writes closed p h =
    let total = length-append (b ∷ buf) (received reads) in
    let d = write_remaining-IsDrained (b ∷ buf) writes p (omega (arith, h, total)) in
    rw (d.drains, after_chunk, then_copied)
      (shuts_down reads d.left closed d.progress (omega (arith, h, total, d.enough)))

-- Where the reader comes to the end of the file, and the writer takes at least a byte each time and
-- answers more often than bytes are read, the copy ends: every byte was written, in order, and the
-- writer is shut down.
pub copy_direction-closed :
    (reads : List Read) (writes : List Write)
    → is_closed reads ≡ true
    → All IsProgress writes
    → length (received reads) < length writes
    → ((copy_direction reads writes).outcome ≡ shut_down)
      × ((copy_direction reads writes).written ≡ received reads)
unfolding is_shut_down
copy_direction-closed reads writes closed p h =
    let done = shuts_down reads writes closed p h in
    let part = copy_direction-IsPartOf reads writes in
    let copied = copy_direction reads writes in
    let nothing = part.complete (ap is_shut_down done) in
    (
      done,
      sym (append-nil copied.written) ∙ ap (λ r. copied.written ++ r) (sym nothing) ∙ part.prefix,
    )
