-- ===== src/Server/InFlight/Wakeups.antt =====
-- server/src/inflight.rs: a packet that waits has a notifier, and nothing to wait for is there.
pub mod Awaited
use mathlib.Core.Path.{subst}
use juicity_rs.Base.{
  has_key, not, ◌&&◌, ℕ, ◌≡◌, ◌≢◌, ap, List, [], ◌∷◌, ◌++◌, none, some, true, false, Bytes, length,
  leb, arith, map, contains, All, All-parts, All-joined, All-mapped, ◌⊎◌, Option-cases, Bool-cases,
  inl, inr, Bytes-discrete, find, retain, find-put, find-del, find-retain-none,
}
use juicity_rs.Protocol.Wire.{UnderlayAuth}
use juicity_rs.Server.InFlight.{
  InFlight, max_in_flight_underlay_entries, insert_auth, store, cleanup, consume, join_waiters,
  register, advance, advance_from, Packet, Phase, fresh_auth, fresh_waiter, wake, wake_phase,
  expired_notifies, looking, registering, claimed, parked, finished, System, Step, Reach, arrives,
  stores_auth, cleans, advances, here, next, start,
}
use juicity_rs.Server.InFlight.Wakeups.Awaited.{
  IsAwaited, Keeps, store-Keeps, cleanup-Keeps, consume-Keeps, register-Keeps, register-parked,
}

abbrev pub IsWatched : InFlight → Packet → Type 0
IsWatched t p = (notify : ℕ) → p.phase ≡ parked notify → IsAwaited t p.key notify

advance_from-Keeps :
    (now id : ℕ) (p : Packet) (t : InFlight) (ph : Phase)
    → Keeps t (advance_from now id p t ph).0.0 (advance_from now id p t ph).1
unfolding advance_from
advance_from-Keeps now id p t looking k n w =
    inl (elim (Option-cases (find Bytes-discrete p.key t.auth)) [
      | inl e ↦ rw (e, advance_from) w
      | inr (a, e) ↦ rw (e, advance_from) w
    ])
advance_from-Keeps now id p t registering k n w = register-Keeps now id p.key t k n w
advance_from-Keeps now id p t (claimed a at) k n w = elim (Bool-cases (p.verifies a)) [
  | inl good ↦ rw (good, advance_from) (consume-Keeps p.key a at t k n w)
  | inr bad ↦ rw (bad, advance_from) (inl w)
]
advance_from-Keeps now id p t (parked m) k n w = inl w
advance_from-Keeps now id p t (finished r) k n w = inl w

consume-ne-parked :
    (key : Bytes) (a : UnderlayAuth) (at : ℕ) (t : InFlight) (n : ℕ)
    → (consume key a at t).1 ≢ parked n
unfolding consume
consume-ne-parked key a at t n h = ground arith

advance_from-parked :
    (now id : ℕ) (p : Packet) (t : InFlight) (ph : Phase) (n : ℕ)
    → (advance_from now id p t ph).0.1 ≡ parked n
    → IsAwaited (advance_from now id p t ph).0.0 p.key n
unfolding advance_from
advance_from-parked now id p t looking n h = absurd (ground arith)
advance_from-parked now id p t registering n h = register-parked now id p.key t n h
advance_from-parked now id p t (claimed a at) n h =
    absurd (ground (arith, consume-ne-parked p.key a at t n))
advance_from-parked now id p t (parked m) n h = cc
advance_from-parked now id p t (finished r) n h = cc

wake_phase-parked :
    (ids : List ℕ) (ph : Phase) (n : ℕ)
    → wake_phase ids ph ≡ parked n
    → (ph ≡ parked n) × (contains n ids ≡ false)
unfolding wake_phase
wake_phase-parked ids (parked m) n h = ground arith
wake_phase-parked ids looking n h = cc
wake_phase-parked ids registering n h = cc
wake_phase-parked ids (claimed a at) n h = cc
wake_phase-parked ids (finished r) n h = cc

-- A packet stays watched if the table keeps its waiter or wakes it.
wake-IsWatched :
    (t t' : InFlight) (ids : List ℕ) (p : Packet)
    → Keeps t t' ids
    → IsWatched t p
    → IsWatched t' (wake ids p)
unfolding wake
wake-IsWatched t t' ids p keeps w n h =
    let (e, asleep) = wake_phase-parked ids p.phase n (unfold wake in h) in
    elim (keeps p.key n (w n e)) [
      | inl kept ↦ unfold wake in kept
      | inr woken ↦ absurd (ground arith)
    ]

All-IsWatched :
    (t : InFlight) (r : InFlight × List ℕ)
    → Keeps t r.0 r.1
    → (ps : List Packet) → All (IsWatched t) ps
    → All (IsWatched r.0) (map (wake r.1) ps)
All-IsWatched t r keeps =
    All-mapped (IsWatched t) (IsWatched r.0) (wake r.1) (λ p. wake-IsWatched t r.0 r.1 p keeps)

Step-IsWatched :
    {s u : System}
    → Step s u
    → All (IsWatched s.table) s.packets
    → All (IsWatched u.table) u.packets
unfolding advance
Step-IsWatched (arrives p h e) w = rw e ((λ n h'. absurd (ground arith)), w)
Step-IsWatched {s} (stores_auth now key a e) w =
    rw e
      (All-IsWatched s.table (store now key a s.table) (store-Keeps now key a s.table) s.packets w)
Step-IsWatched {s} (cleans now e) w =
    rw e (All-IsWatched s.table (cleanup now s.table) (cleanup-Keeps now s.table) s.packets w)
Step-IsWatched {s} (advances now id before after p h e) w =
    let t' = (advance_from now id p s.table p.phase).0.0 in
    let ids = (advance_from now id p s.table p.phase).1 in
    let keeps = advance_from-Keeps now id p s.table p.phase in
    let (wb, wp, wa) =
      All-parts (IsWatched s.table) before after p (subst (All (IsWatched s.table)) h w) in
    rw e (
      All-joined (IsWatched t') (map (wake ids) before) _
        (All-IsWatched s.table (t', ids) keeps before wb)
        (
          advance_from-parked now id p s.table p.phase,
          All-IsWatched s.table (t', ids) keeps after wa,
        ))

-- However stores, packets and cleanups interleave, no packet sleeps through its authentication:
-- while a packet is parked the table has the notifier that it is parked on under its key, so that
-- the next `store` for the key wakes it, and holds no authentication for the key.
pub Reach-IsWatched :
    (ttl evict_timeout : ℕ) {s : System}
    → Reach (start ttl evict_timeout) s
    → All (IsWatched s.table) s.packets
Reach-IsWatched ttl evict_timeout here = tt
Reach-IsWatched ttl evict_timeout (next r st) =
    Step-IsWatched st (Reach-IsWatched ttl evict_timeout r)
