-- ===== src/Server/InFlight/Capacity.antt =====
-- server/src/inflight.rs: both tables stay within their capacity.
use juicity_rs.Base.{
  ℕ, ◌≤◌, ◌<◌, ◌≡◌, none, some, Bytes, length, arith, Option-cases, inl, inr, Bytes-discrete, find,
  retain, length-put, length-put_present, length-del-le, length-retain-le,
}
use juicity_rs.Protocol.Wire.{UnderlayAuth}
use juicity_rs.Server.InFlight.{
  InFlight, max_in_flight_underlay_entries, insert_auth, store, cleanup, consume, join_waiters,
  register, advance, advance_from, Packet, Phase, fresh_auth, fresh_waiter, looking, registering,
  claimed, parked, finished, System, Step, Reach, arrives, stores_auth, cleans, advances, here,
  next, start,
}

pub record IsBounded (t : InFlight) : Type 0 where
  pub auth : length t.auth ≤ max_in_flight_underlay_entries
  pub waiting : length t.waiting ≤ max_in_flight_underlay_entries

insert_auth-IsBounded :
    (now : ℕ) (key : Bytes) (a : UnderlayAuth) (t : InFlight)
    → length t.auth < max_in_flight_underlay_entries
    → length t.waiting ≤ max_in_flight_underlay_entries
    → IsBounded (insert_auth now key a t).0
unfolding insert_auth
insert_auth-IsBounded now key a t ha hw = record {
  auth = omega (arith, length-put Bytes-discrete key (a, now) t.auth);
  waiting = omega (arith, length-del-le Bytes-discrete key t.waiting);
}

insert_auth_present-IsBounded :
    (now : ℕ) (key : Bytes) (a : UnderlayAuth) (t : InFlight) (w : UnderlayAuth × ℕ)
    → find Bytes-discrete key t.auth ≡ some w
    → IsBounded t
    → IsBounded (insert_auth now key a t).0
unfolding insert_auth
insert_auth_present-IsBounded now key a t w e b = record {
  auth = omega (arith, length-put_present Bytes-discrete key (a, now) w t.auth e);
  waiting = omega (arith, length-del-le Bytes-discrete key t.waiting);
}

store-IsBounded :
    (now : ℕ) (key : Bytes) (a : UnderlayAuth) (t : InFlight)
    → IsBounded t
    → IsBounded (store now key a t).0
unfolding store
store-IsBounded now key a t b =
    let t' = record t { auth = retain (fresh_auth t.ttl now) t.auth } in
    let shrinks = length-retain-le (fresh_auth t.ttl now) t.auth in
    elim (Option-cases (find Bytes-discrete key t.auth)) [
      | inr (w, e) ↦ ground (arith, insert_auth_present-IsBounded now key a t w e)
      | inl e ↦
          ground
            (arith, insert_auth-IsBounded now key a t, insert_auth-IsBounded now key a t', shrinks)
    ]

cleanup-IsBounded : (now : ℕ) (t : InFlight) → IsBounded t → IsBounded (cleanup now t).0
unfolding cleanup
cleanup-IsBounded now t b =
    let x = length-retain-le (fresh_auth t.ttl now) t.auth in
    let y = length-retain-le (fresh_waiter t.evict_timeout now) t.waiting in
    record { auth = omega arith; waiting = omega arith }

consume-IsBounded :
    (key : Bytes) (a : UnderlayAuth) (at : ℕ) (t : InFlight)
    → IsBounded t
    → IsBounded (consume key a at t).0
unfolding consume
consume-IsBounded key a at t b = ground (arith, length-del-le Bytes-discrete key t.auth)

join_waiters-IsBounded :
    (now id : ℕ) (key : Bytes) (t : InFlight)
    → IsBounded t
    → (find Bytes-discrete key t.waiting ≡ none → length t.waiting < max_in_flight_underlay_entries)
    → IsBounded (join_waiters now id key t).0
unfolding join_waiters
join_waiters-IsBounded now id key t b room =
    elim (Option-cases (find Bytes-discrete key t.waiting)) [
      | inr (w, e) ↦ ground arith
      | inl e ↦ let r = room e in ground (arith, length-put Bytes-discrete key (id, now) t.waiting)
    ]

register-IsBounded :
    (now id : ℕ) (key : Bytes) (t : InFlight) → IsBounded t → IsBounded (register now id key t).0.0
unfolding register
register-IsBounded now id key t b =
    let t' = record t { waiting = retain (fresh_waiter t.evict_timeout now) t.waiting } in
    let shrinks = length-retain-le (fresh_waiter t.evict_timeout now) t.waiting in
    ground
      (arith, join_waiters-IsBounded now id key t, join_waiters-IsBounded now id key t', shrinks)

advance_from-IsBounded :
    (now id : ℕ) (p : Packet) (t : InFlight) (ph : Phase)
    → IsBounded t
    → IsBounded (advance_from now id p t ph).0.0
unfolding advance_from
advance_from-IsBounded now id p t looking b = ground arith
advance_from-IsBounded now id p t registering b = register-IsBounded now id p.key t b
advance_from-IsBounded now id p t (claimed a at) b = ground (arith, consume-IsBounded p.key a at t)
advance_from-IsBounded now id p t (parked n) b = b
advance_from-IsBounded now id p t (finished r) b = b

Step-IsBounded : {s u : System} → Step s u → IsBounded s.table → IsBounded u.table
unfolding advance
Step-IsBounded (arrives p h e) b = rw e b
Step-IsBounded {s} (stores_auth now key a e) b = rw e (store-IsBounded now key a s.table b)
Step-IsBounded {s} (cleans now e) b = rw e (cleanup-IsBounded now s.table b)
Step-IsBounded {s} (advances now id before after p h e) b =
    rw e (advance_from-IsBounded now id p s.table p.phase b)

-- Whatever the interleaving of stores, packets and cleanups, neither the authenticated entries nor
-- the waiters outgrow their limit.
pub Reach-IsBounded :
    (ttl evict_timeout : ℕ) {s : System} → Reach (start ttl evict_timeout) s → IsBounded s.table
Reach-IsBounded ttl evict_timeout here = record { auth = omega arith; waiting = omega arith }
Reach-IsBounded ttl evict_timeout (next r st) =
    Step-IsBounded st (Reach-IsBounded ttl evict_timeout r)
