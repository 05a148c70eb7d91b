-- ===== src/Associate/Ordered.antt =====
-- client/src/local.rs: what is written on the streams of UDP ASSOCIATE.
use native.Mathlib.Decide.{ℕ_discrete}
use mathlib.Core.Path.{subst}
use juicity_rs.Base.{
  ℕ, ◌≡◌, sym, ap, ◌∙◌, List, [], ◌∷◌, ◌++◌, append_assoc, append-nil, true, false, ◌&&◌, length,
  contains, ltb, if◌then◌else◌, ◌==◌, find, put, arith, All, All-parts, All-joined, All-mapped,
  All-weaker, Bool-cases, Option-cases, inl, inr,
}
use juicity_rs.Socks.{UdpOutboundDatagram}
use juicity_rs.Associate.{
  queue_capacity, Stream, Opener, Associate, UdpSessionEntry, remove_session_if_match,
  spawn_udp_assoc_session, is_channel, is_live, enqueue, forward_datagram, receive, insert_session,
  Step, receives, opens, open_fails, drops_guard, writes, ends, removes, cleans, clears, Reach,
  here, next, start,
}

-- Some elements of a list, in their order.
pub data IsSubsequence {A : Type 0} : List A → List A → Type 0 where
  nothing : IsSubsequence [] []
  skips : {a : A} {xs ys : List A} → IsSubsequence xs ys → IsSubsequence xs (a ∷ ys)
  keeps : {a : A} {xs ys : List A} → IsSubsequence xs ys → IsSubsequence (a ∷ xs) (a ∷ ys)

module _ {A : Type 0} where
  skip_last : {xs ys : List A} (y : A) → IsSubsequence xs ys → IsSubsequence xs (ys ++ (y ∷ []))
  skip_last y nothing = skips nothing
  skip_last y (skips h) = skips (skip_last y h)
  skip_last y (keeps h) = keeps (skip_last y h)

  keep_last :
      {xs ys : List A} (y : A)
      → IsSubsequence xs ys
      → IsSubsequence (xs ++ (y ∷ [])) (ys ++ (y ∷ []))
  keep_last y nothing = keeps nothing
  keep_last y (skips h) = skips (keep_last y h)
  keep_last y (keeps h) = keeps (keep_last y h)

  none_of : (ys : List A) → IsSubsequence [] ys
  none_of [] = nothing
  none_of (y ∷ ys) = skips (none_of ys)

-- The datagrams of a source.
unfoldable pub of_source : ℕ → List (ℕ × UdpOutboundDatagram) → List UdpOutboundDatagram
of_source source [] = []
of_source source ((src, d) ∷ received) =
    if src == source then d ∷ of_source source received else of_source source received

of_source-append :
    (source src : ℕ) (d : UdpOutboundDatagram) (received : List (ℕ × UdpOutboundDatagram))
    → of_source source (received ++ ((src, d) ∷ []))
      ≡ of_source source received ++ (if src == source then d ∷ [] else [])
unfolding of_source
of_source-append source src d [] = ground arith
of_source-append source src d ((a, b) ∷ received) =
    ground (arith, of_source-append source src d received)

-- Some of the datagrams of a source, in the order in which they came.
abbrev pub IsFrom : ℕ → List UdpOutboundDatagram → List (ℕ × UdpOutboundDatagram) → Type 0
IsFrom source ds received = IsSubsequence ds (of_source source received)

later-IsFrom :
    (source src : ℕ) (d : UdpOutboundDatagram) (ds : List UdpOutboundDatagram)
    (received : List (ℕ × UdpOutboundDatagram))
    → IsFrom source ds received
    → IsFrom source ds (received ++ ((src, d) ∷ []))
later-IsFrom source src d ds received h =
    rw (of_source-append source src d received) (elim (Bool-cases (src == source)) [
      | inl e ↦ rw e (skip_last d h)
      | inr e ↦ rw (e, append-nil (of_source source received)) h
    ])

last-IsFrom :
    (source : ℕ) (d : UdpOutboundDatagram) (ds : List UdpOutboundDatagram)
    (received : List (ℕ × UdpOutboundDatagram))
    → IsFrom source ds received
    → IsFrom source (ds ++ (d ∷ [])) (received ++ ((source, d) ∷ []))
last-IsFrom source d ds received h =
    let same : (source == source) ≡ true = ground arith in
    rw (of_source-append source source d received, same) (keep_last d h)

abbrev pub IsOrderedStream : List (ℕ × UdpOutboundDatagram) → Stream → Type 0
IsOrderedStream received st = IsFrom st.source (st.written ++ st.queue) received

enqueue-IsOrderedStream :
    (source id : ℕ) (d : UdpOutboundDatagram) (received : List (ℕ × UdpOutboundDatagram))
    (st : Stream)
    → IsOrderedStream received st
    → IsOrderedStream (received ++ ((source, d) ∷ [])) (enqueue source id d st)
unfolding enqueue is_channel
enqueue-IsOrderedStream source id d received st h =
    elim (Bool-cases (is_channel source id st && ltb (length st.queue) queue_capacity)) [
      | inr e ↦
          rw (enqueue, e) (later-IsFrom st.source source d (st.written ++ st.queue) received h)
      | inl e ↦
          let mine : source ≡ st.source = ground (arith, e) in
          let all =
            subst (λ l. IsFrom st.source l (received ++ ((st.source, d) ∷ [])))
              (append_assoc st.written st.queue (d ∷ []))
              (last-IsFrom st.source d (st.written ++ st.queue) received h) in
          rw (enqueue, e)
            (subst
              (λ k.
                IsFrom st.source (st.written ++ (st.queue ++ (d ∷ []))) (received ++ ((k, d) ∷ [])))
              (sym mine) all)
    ]

abbrev pub IsOrderedOpener : List (ℕ × UdpOutboundDatagram) → Opener → Type 0
IsOrderedOpener received o = IsFrom o.source (o.first ∷ []) received

record IsOrdered (s : Associate) : Type 0 where
  of_streams : All (IsOrderedStream s.received) s.streams
  of_openers : All (IsOrderedOpener s.received) s.openers

-- What a step leaves alone.
spawn-IsOrdered :
    (source : ℕ) (d : UdpOutboundDatagram) (s : Associate)
    → IsFrom source (d ∷ []) s.received
    → IsOrdered s
    → IsOrdered (spawn_udp_assoc_session source d s)
unfolding spawn_udp_assoc_session
spawn-IsOrdered source d s from h = elim (Bool-cases (contains source s.opening)) [
  | inl e ↦ rw (spawn_udp_assoc_session, e) h
  | inr e ↦
      rw (spawn_udp_assoc_session, e)
        (record { of_streams = h.of_streams; of_openers = (from, h.of_openers) })
]

remove-IsOrdered :
    (source id : ℕ) (s : Associate) → IsOrdered s → IsOrdered (remove_session_if_match source id s)
unfolding remove_session_if_match
remove-IsOrdered source id s h = elim (Option-cases (find ℕ_discrete source s.sessions)) [
  | inl e ↦ rw (remove_session_if_match, e) h
  | inr (existing, e) ↦ elim (Bool-cases (existing.id == id)) [
    | inl f ↦
        rw (remove_session_if_match, e, f)
          (record { of_streams = h.of_streams; of_openers = h.of_openers })
    | inr f ↦ rw (remove_session_if_match, e, f) h
  ]
]

remove_received :
    (source id : ℕ) (s : Associate) → (remove_session_if_match source id s).received ≡ s.received
unfolding remove_session_if_match
remove_received source id s = ground arith

receive-IsOrdered :
    (now source : ℕ) (d : UdpOutboundDatagram) (s : Associate)
    → IsOrdered s
    → IsOrdered (receive now source d s)
unfolding receive forward_datagram
receive-IsOrdered now source d s h =
    let received = s.received ++ ((source, d) ∷ []) in
    let t : Associate = record s { received = received } in
    let openers =
      All-weaker (IsOrderedOpener s.received) (IsOrderedOpener received)
        (λ o. later-IsFrom o.source source d (o.first ∷ []) s.received) s.openers h.of_openers in
    let streams =
      All-weaker (IsOrderedStream s.received) (IsOrderedStream received)
        (λ st. later-IsFrom st.source source d (st.written ++ st.queue) s.received) s.streams
        h.of_streams in
    let quiet : IsOrdered t = record { of_streams = streams; of_openers = openers } in
    let from : IsFrom source (d ∷ []) received =
      last-IsFrom source d [] s.received (none_of (of_source source s.received)) in
    elim (Option-cases (find ℕ_discrete source s.sessions)) [
      | inl e ↦ rw (receive, forward_datagram, e) (spawn-IsOrdered source d t from quiet)
      | inr (session, e) ↦
          let touched : Associate = record t {
            sessions =
                put ℕ_discrete source (record session { last_used_epoch_ms = now }) s.sessions;
          } in
          let still : IsOrdered touched = record { of_streams = streams; of_openers = openers } in
          let removed = remove_session_if_match source session.id touched in
          elim (Bool-cases (is_live source session.id s.streams)) [
            | inl f ↦
                rw (receive, forward_datagram, e, f)
                  (record {
                    of_streams =
                        All-mapped (IsOrderedStream s.received) (IsOrderedStream received)
                          (enqueue source session.id d)
                          (enqueue-IsOrderedStream source session.id d s.received) s.streams
                          h.of_streams;
                    of_openers = openers;
                  })
            | inr f ↦
                rw (receive, forward_datagram, e, f)
                  (spawn-IsOrdered source d removed
                    (subst (IsFrom source (d ∷ []))
                      (sym (remove_received source session.id touched)) from)
                    (remove-IsOrdered source session.id touched still))
          ]
    ]

Step-IsOrdered : {s u : Associate} → Step s u → IsOrdered s → IsOrdered u
unfolding insert_session juicity_rs.Associate.cleanup
Step-IsOrdered {s} (receives now source d e) h = rw e (receive-IsOrdered now source d s h)
Step-IsOrdered {s} (opens now before after o eo connecting e) h =
    let P = IsOrderedOpener s.received in
    let (hb, ho, ha) = All-parts P before after o (subst (All P) eo h.of_openers) in
    rw e (record {
      of_streams = (ho, h.of_streams);
      of_openers = All-joined P before ((record o { connecting = false }) ∷ after) hb (ho, ha);
    })
Step-IsOrdered {s} (open_fails before after o eo connecting e) h =
    let P = IsOrderedOpener s.received in
    let (hb, ho, ha) = All-parts P before after o (subst (All P) eo h.of_openers) in
    rw e (record {
      of_streams = h.of_streams;
      of_openers = All-joined P before ((record o { connecting = false }) ∷ after) hb (ho, ha);
    })
Step-IsOrdered {s} (drops_guard before after o eo e) h =
    let P = IsOrderedOpener s.received in
    let (hb, ho, ha) = All-parts P before after o (subst (All P) eo h.of_openers) in
    rw e (record { of_streams = h.of_streams; of_openers = All-joined P before after hb ha })
Step-IsOrdered {s} (writes before after st d queue es eq e) h =
    let P = IsOrderedStream s.received in
    let (hb, hst, ha) = All-parts P before after st (subst (All P) es h.of_streams) in
    let moved : st.written ++ st.queue ≡ (st.written ++ (d ∷ [])) ++ queue =
      ap (λ q. st.written ++ q) eq ∙ sym (append_assoc st.written (d ∷ []) queue) in
    rw e (record {
      of_streams =
          All-joined P before
            ((record st { written = st.written ++ (d ∷ []); queue = queue }) ∷ after) hb
            (subst (λ l. IsFrom st.source l s.received) moved hst, ha);
      of_openers = h.of_openers;
    })
Step-IsOrdered {s} (ends before after st es e) h =
    let P = IsOrderedStream s.received in
    let (hb, hst, ha) = All-parts P before after st (subst (All P) es h.of_streams) in
    rw e (record {
      of_streams = All-joined P before ((record st { is_open = false }) ∷ after) hb (hst, ha);
      of_openers = h.of_openers;
    })
Step-IsOrdered {s} (removes source id e) h = rw e (remove-IsOrdered source id s h)
Step-IsOrdered (cleans now e) h =
    rw e (record { of_streams = h.of_streams; of_openers = h.of_openers })
Step-IsOrdered (clears e) h = rw e (record { of_streams = h.of_streams; of_openers = h.of_openers })

reach_lem : {s : Associate} → Reach start s → IsOrdered s
reach_lem here = record { of_streams = tt; of_openers = tt }
reach_lem (next r st) = Step-IsOrdered st (reach_lem r)

-- However datagrams, opened and failed streams, writers, closed sessions and cleanups interleave,
-- every stream carries, with what is still in its channel, some of the datagrams that came from
-- its own source, in the order in which they came: none of another source, none twice.
pub Reach-IsOrderedStream :
    {s : Associate} → Reach start s → All (IsOrderedStream s.received) s.streams
Reach-IsOrderedStream r = (reach_lem r).of_streams
