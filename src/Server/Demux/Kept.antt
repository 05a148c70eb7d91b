-- ===== src/Server/Demux/Kept.antt =====
-- server/src/underlay_socket.rs: where each received buffer goes.
use juicity_rs.Base.{
  ℕ, take-append, get_elem?, some, not, ◌&&◌, ◌==◌, true, false, take-nil, take, sym, ◌-◌, suc, ◌+◌,
  ◌≡◌, refl, ap, ◌∙◌, List, [], ◌∷◌, ◌++◌, Bool, length, length-append, ltb, if◌then◌else◌, arith,
  Bool-cases, inl, inr, append_assoc, append-nil, retain,
}
use juicity_rs.Server.Demux.{
  UnderlayPacket, Batch, Channel, segments, try_send, send_all, is_probably_quic_packet,
  first_packet, demux_batches, demux_from, swap_batches, replace_at,
}

-- The packets of the buffers that do not look like QUIC, in order of arrival.
unfoldable pub underlay_packets : List Batch → List UnderlayPacket
underlay_packets [] = []
underlay_packets (b ∷ bs) =
    (if is_probably_quic_packet (first_packet b) then [] else segments b.len b 0)
    ++ underlay_packets bs

unfoldable pub looks_like_quic : Batch → Bool
looks_like_quic b = is_probably_quic_packet (first_packet b)

send_all-append :
    (ch : Channel) (ps qs : List UnderlayPacket)
    → send_all ch (ps ++ qs) ≡ send_all (send_all ch ps) qs
unfolding send_all
send_all-append ch [] qs = refl
send_all-append ch (p ∷ ps) qs = send_all-append (try_send ch p) ps qs

record IsSplit (keep i : ℕ) (K S R bs : List Batch) : Type 0 where
  kept_first : keep ≡ length K
  skipped_next : i ≡ length K + length S
  rest_last : bs ≡ K ++ (S ++ R)

get_elem?-behind :
    (K R : List Batch) (b : Batch) (n : ℕ) → n ≡ length K → get_elem? (K ++ (b ∷ R)) n ≡ some b
get_elem?-behind [] R b n e = rw e refl
get_elem?-behind (x ∷ K) R b n e = rw e (get_elem?-behind K R b (length K) refl)

replace_at-behind :
    (K R : List Batch) (a b : Batch) (n : ℕ)
    → n ≡ length K
    → replace_at (K ++ (a ∷ R)) n b ≡ K ++ (b ∷ R)
unfolding replace_at
replace_at-behind [] R a b n e = rw e refl
replace_at-behind (x ∷ K) R a b n e =
    rw e (ap (λ r. x ∷ r) (replace_at-behind K R a b (length K) refl))

-- A swap moves the buffer at `i` to the front part, and the first of the skipped ones behind them.
swap_lem :
    (K S R : List Batch) (a b : Batch)
    → swap_batches (length K) (length K + suc (length S)) (K ++ ((a ∷ S) ++ (b ∷ R)))
      ≡ K ++ (b ∷ (S ++ (a ∷ R)))
unfolding swap_batches
swap_lem K S R a b =
    let at : length K + suc (length S) ≡ length (K ++ (a ∷ S)) =
      omega (arith, length-append K (a ∷ S)) in
    let at' : length K + suc (length S) ≡ length (K ++ (b ∷ S)) =
      omega (arith, length-append K (b ∷ S)) in
    let second : get_elem? (K ++ ((a ∷ S) ++ (b ∷ R))) (length K + suc (length S)) ≡ some b =
      ap (λ l. get_elem? l (length K + suc (length S))) (sym (append_assoc K (a ∷ S) (b ∷ R)))
      ∙ get_elem?-behind (K ++ (a ∷ S)) R b _ at in
    rw
      (
        swap_batches,
        get_elem?-behind K (S ++ (b ∷ R)) a (length K) refl,
        second,
        replace_at-behind K (S ++ (b ∷ R)) a b (length K) refl,
      )
      (ap (λ l. replace_at l (length K + suc (length S)) a) (sym (append_assoc K (b ∷ S) (b ∷ R)))
        ∙ replace_at-behind (K ++ (b ∷ S)) R b a _ at'
        ∙ append_assoc K (b ∷ S) (a ∷ R))

-- What a round of the loop leaves, where the buffer looks like QUIC.
moved_lem :
    (keep i : ℕ) (K S R bs : List Batch) (b : Batch)
    → IsSplit keep i K S (b ∷ R) bs
    → (S' : List Batch) × IsSplit
        (keep + 1)
        (i + 1)
        (K ++ (b ∷ []))
        S'
        R
        (if not (keep == i) then swap_batches keep i bs else bs)
moved_lem keep i K [] R bs b h =
    let same : keep == i ≡ true = ground (arith, h.kept_first, h.skipped_next) in
    (
      [],
      record {
        kept_first = omega (arith, h.kept_first, length-append K (b ∷ []));
        skipped_next = omega (arith, h.skipped_next, length-append K (b ∷ []));
        rest_last = rw same (h.rest_last ∙ sym (append_assoc K (b ∷ []) R));
      },
    )
moved_lem keep i K (a ∷ S) R bs b h =
    let other : keep == i ≡ false = ground (arith, h.kept_first, h.skipped_next) in
    let swapped : swap_batches keep i bs ≡ K ++ (b ∷ (S ++ (a ∷ R))) =
      (λ j. swap_batches (h.kept_first j) (h.skipped_next j) (h.rest_last j))
      ∙ swap_lem K S R a b in
    (
      S ++ (a ∷ []),
      record {
        kept_first = omega (arith, h.kept_first, length-append K (b ∷ []));
        skipped_next =
            omega (arith, h.skipped_next, length-append K (b ∷ []), length-append S (a ∷ []));
        rest_last = rw other (
            swapped
            ∙ sym (append_assoc K (b ∷ []) (S ++ (a ∷ R)))
            ∙ ap (λ l. (K ++ (b ∷ [])) ++ l) (sym (append_assoc S (a ∷ []) R)));
      },
    )

-- The loop leaves the kept buffers in front, and the channel gets all other packets, in order.
loop_lem :
    (R K S bs : List Batch) (keep i : ℕ) (ch : Channel)
    → IsSplit keep i K S R bs
    → (take (demux_from (length R) keep i ch bs).0.0 (demux_from (length R) keep i ch bs).0.1
        ≡ K ++ retain looks_like_quic R)
      × ((demux_from (length R) keep i ch bs).1 ≡ send_all ch (underlay_packets R))
unfolding demux_from underlay_packets send_all retain looks_like_quic
loop_lem [] K S bs keep i ch h = (
  rw (h.kept_first, h.rest_last) (take-append (length K) K (S ++ []) refl ∙ sym (append-nil K)),
  refl,
)
loop_lem (b ∷ R) K S bs keep i ch h =
    let found : get_elem? bs i ≡ some b =
      ap (λ l. get_elem? l i) (h.rest_last ∙ sym (append_assoc K S (b ∷ R)))
      ∙ get_elem?-behind (K ++ S) R b i (omega (arith, h.skipped_next, length-append K S)) in
    elim (Bool-cases (is_probably_quic_packet (first_packet b))) [
      | inl quic ↦
          let (S', m) = moved_lem keep i K S R bs b h in
          let ih = loop_lem R (K ++ (b ∷ [])) S' _ (keep + 1) (i + 1) ch m in
          rw (demux_from, found, quic)
            (ih.0 ∙ append_assoc K (b ∷ []) (retain looks_like_quic R), ih.1)
      | inr other ↦
          let ih =
            loop_lem R K (S ++ (b ∷ [])) bs keep (i + 1) (send_all ch (segments b.len b 0))
              (record {
                kept_first = h.kept_first;
                skipped_next = omega (arith, h.skipped_next, length-append S (b ∷ []));
                rest_last = h.rest_last ∙ ap (λ l. K ++ l) (sym (append_assoc S (b ∷ []) R));
              }) in
          rw (demux_from, found, other)
            (ih.0, ih.1 ∙ sym (send_all-append ch (segments b.len b 0) (underlay_packets R)))
    ]

-- How many packets a channel has room for: none once its receiver is gone.
abbrev pub room : Channel → ℕ
room ch = if ch.closed then 0 else ch.capacity - length ch.queue

-- A channel takes packets as long as there is room, and counts the others.
send_all_lem :
    (ps : List UnderlayPacket) (ch : Channel)
    → ((send_all ch ps).queue ≡ ch.queue ++ take (room ch) ps)
      × ((send_all ch ps).dropped ≡ ch.dropped + (length ps - room ch))
unfolding send_all
send_all_lem [] ch = (rw (take-nil (room ch), append-nil), omega arith)
send_all_lem (p ∷ ps) ch = elim (Bool-cases (not ch.closed && ltb (length ch.queue) ch.capacity)) [
  | inl free ↦
      let ih = send_all_lem ps (record ch { queue = ch.queue ++ (p ∷ []) }) in
      let k = ch.capacity - suc (length ch.queue) in
      let e : room ch ≡ suc k = ground (arith, free) in
      let e' : room (record ch { queue = ch.queue ++ (p ∷ []) }) ≡ k =
        ground (arith, free, length-append ch.queue (p ∷ [])) in
      let step : try_send ch p ≡ record ch { queue = ch.queue ++ (p ∷ []) } = rw free refl in
      (
        ap (λ c. (send_all c ps).queue) step ∙ ih.0 ∙ rw (e', e, append_assoc),
        ap (λ c. (send_all c ps).dropped) step ∙ omega (arith, ih.1, e, e'),
      )
  | inr full ↦
      let ih = send_all_lem ps (record ch { dropped = ch.dropped + 1 }) in
      let e : room ch ≡ 0 = ground (arith, full) in
      let step : try_send ch p ≡ record ch { dropped = ch.dropped + 1 } = rw full refl in
      (
        ap (λ c. (send_all c ps).queue) step ∙ ih.0 ∙ rw e,
        ap (λ c. (send_all c ps).dropped) step ∙ omega (arith, ih.1, e),
      )
]

-- One pass over the received buffers, with its swaps: the first buffers, as many as are kept, are
-- exactly those whose first datagram looks like QUIC, in order; of all other packets the channel gets
-- as many as it has room for, in order, none if its receiver is gone, and the rest is counted as
-- dropped.
pub demux_batches_lem :
    (ch : Channel) (bs : List Batch)
    → ((demux_batches ch bs).0 ≡ retain looks_like_quic bs)
      × ((demux_batches ch bs).1.queue
          ≡ ch.queue
            ++ take (if ch.closed then 0 else ch.capacity - length ch.queue) (underlay_packets bs))
      × ((demux_batches ch bs).1.dropped
          ≡ ch.dropped
            + (length (underlay_packets bs)
                - (if ch.closed then 0 else ch.capacity - length ch.queue)))
unfolding demux_batches
demux_batches_lem ch bs =
    let loop =
      loop_lem bs [] [] bs 0 0 ch
        (record { kept_first = refl; skipped_next = refl; rest_last = refl }) in
    let taken = send_all_lem (underlay_packets bs) ch in
    (
      loop.0,
      ap (λ (c : Channel). c.queue) loop.1 ∙ taken.0,
      ap (λ (c : Channel). c.dropped) loop.1 ∙ taken.1,
    )
