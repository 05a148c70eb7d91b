-- ===== src/Server/InFlight/Wakeups/Awaited.antt =====
-- server/src/inflight.rs: what the critical sections do to those who wait.
use juicity_rs.Base.{
  has_key, not, ◌&&◌, ℕ, ◌≡◌, ap, List, [], ◌∷◌, none, some, true, Bytes, length, leb, arith,
  contains, ◌⊎◌, Option-cases, Bool-cases, inl, inr, Bytes-discrete, find, retain, find-put,
  find-del, find-retain-none,
}
use juicity_rs.Protocol.Wire.{UnderlayAuth}
use juicity_rs.Server.InFlight.{
  InFlight, max_in_flight_underlay_entries, insert_auth, store, cleanup, consume, join_waiters,
  register, fresh_auth, fresh_waiter, expired_notifies, parked,
}

-- The table knows the notifier on which a packet for `key` waits, and holds no authentication
-- for it.
pub record IsAwaited (t : InFlight) (key : Bytes) (notify : ℕ) : Type 0 where
  pub inserted_at : ℕ
  pub waiter : find Bytes-discrete key t.waiting ≡ some (notify, inserted_at)
  pub missing : find Bytes-discrete key t.auth ≡ none

-- A change of the table that wakes `ids` forgets no other waiter.
abbrev pub Keeps : InFlight → InFlight → List ℕ → Type 0
Keeps t t' ids =
    (key : Bytes) (notify : ℕ)
    → IsAwaited t key notify
    → IsAwaited t' key notify ⊎ (contains notify ids ≡ true)

waiter-retain :
    (timeout now : ℕ) (key : Bytes) (ws : List (Bytes × (ℕ × ℕ))) (w : ℕ × ℕ)
    → find Bytes-discrete key ws ≡ some w
    → (find Bytes-discrete key (retain (fresh_waiter timeout now) ws) ≡ some w)
      ⊎ (contains w.0 (expired_notifies timeout now ws) ≡ true)
unfolding find retain expired_notifies
waiter-retain timeout now key [] w h = absurd (ground arith)
waiter-retain timeout now key ((j, v) ∷ ws) w h = elim (Bytes-discrete j key) [
  | yes e ↦ ground arith
  | no ne ↦ ground (arith, waiter-retain timeout now key ws w)
]

insert_auth-Keeps :
    (now : ℕ) (key : Bytes) (a : UnderlayAuth) (t : InFlight)
    → Keeps t (insert_auth now key a t).0 (insert_auth now key a t).1
unfolding insert_auth
insert_auth-Keeps now key a t k n w = elim (Bytes-discrete key k) [
  | yes e ↦ inr (ground (arith, w.waiter, ap (λ q. find Bytes-discrete q t.waiting) e))
  | no ne ↦ inl (record {
    inserted_at = w.inserted_at;
    waiter = ground (arith, find-del Bytes-discrete key k t.waiting, w.waiter);
    missing = ground (arith, find-put Bytes-discrete key k (a, now) t.auth, w.missing);
  })
]

pub store-Keeps :
    (now : ℕ) (key : Bytes) (a : UnderlayAuth) (t : InFlight)
    → Keeps t (store now key a t).0 (store now key a t).1
unfolding store
store-Keeps now key a t k n w =
    let t' = record t { auth = retain (fresh_auth t.ttl now) t.auth } in
    let w' : IsAwaited t' k n = record {
      inserted_at = w.inserted_at;
      waiter = w.waiter;
      missing = find-retain-none Bytes-discrete (fresh_auth t.ttl now) k t.auth w.missing;
    } in
    elim (Bool-cases (
      not (has_key Bytes-discrete key t.auth)
      && leb max_in_flight_underlay_entries (length t.auth))) [
        | inr room ↦ rw room (insert_auth-Keeps now key a t k n w)
        | inl full ↦ elim (Bool-cases (leb max_in_flight_underlay_entries (length t'.auth))) [
          | inl still ↦ rw (full, still) (inl w')
          | inr room ↦ rw (full, room) (insert_auth-Keeps now key a t' k n w')
        ]
      ]

pub cleanup-Keeps : (now : ℕ) (t : InFlight) → Keeps t (cleanup now t).0 (cleanup now t).1
unfolding cleanup
cleanup-Keeps now t k n w =
    elim (waiter-retain t.evict_timeout now k t.waiting (n, w.inserted_at) w.waiter) [
      | inl kept ↦ inl (record {
        inserted_at = w.inserted_at;
        waiter = kept;
        missing = find-retain-none Bytes-discrete (fresh_auth t.ttl now) k t.auth w.missing;
      })
      | inr woken ↦ inr woken
    ]

pub consume-Keeps :
    (key : Bytes) (a : UnderlayAuth) (at : ℕ) (t : InFlight) → Keeps t (consume key a at t).0 []
unfolding consume
consume-Keeps key a at t k n w = inl (record {
  inserted_at = w.inserted_at;
  waiter = ground (arith, w.waiter);
  missing = ground (arith, find-del Bytes-discrete key k t.auth, w.missing);
})

join_waiters-Keeps :
    (now id : ℕ) (key : Bytes) (t : InFlight) (k : Bytes) (n : ℕ)
    → IsAwaited t k n
    → IsAwaited (join_waiters now id key t).0 k n
unfolding join_waiters
join_waiters-Keeps now id key t k n w = elim (Option-cases (find Bytes-discrete key t.waiting)) [
  | inr (v, e) ↦ rw (e, join_waiters) w
  | inl e ↦ elim (Bytes-discrete key k) [
    | yes same ↦ absurd (ground (arith, w.waiter, ap (λ q. find Bytes-discrete q t.waiting) same))
    | no ne ↦
        rw (e, join_waiters)
          (record {
            inserted_at = w.inserted_at;
            waiter = ground (arith, find-put Bytes-discrete key k (id, now) t.waiting, w.waiter);
            missing = w.missing;
          })
  ]
]

-- A packet that joins the waiters of an absent key is awaited.
join_waiters-parked :
    (now id : ℕ) (key : Bytes) (t : InFlight) (n : ℕ)
    → find Bytes-discrete key t.auth ≡ none
    → (join_waiters now id key t).1 ≡ parked n
    → IsAwaited (join_waiters now id key t).0 key n
unfolding join_waiters
join_waiters-parked now id key t n missing h =
    elim (Option-cases (find Bytes-discrete key t.waiting)) [
      | inr (v, e) ↦
          rw (e, join_waiters)
            (record { inserted_at = v.1; waiter = ground arith; missing = missing })
      | inl e ↦
          rw (e, join_waiters)
            (record {
              inserted_at = now;
              waiter = ground (arith, find-put Bytes-discrete key key (id, now) t.waiting);
              missing = missing;
            })
    ]

abbrev swept : ℕ → InFlight → InFlight
swept now t = record t { waiting = retain (fresh_waiter t.evict_timeout now) t.waiting }

swept-Keeps :
    (now : ℕ) (t : InFlight)
    → Keeps t (swept now t) (expired_notifies t.evict_timeout now t.waiting)
swept-Keeps now t k n w =
    elim (waiter-retain t.evict_timeout now k t.waiting (n, w.inserted_at) w.waiter) [
      | inl kept ↦ inl (record { inserted_at = w.inserted_at; waiter = kept; missing = w.missing })
      | inr woken ↦ inr woken
    ]

pub register-Keeps :
    (now id : ℕ) (key : Bytes) (t : InFlight)
    → Keeps t (register now id key t).0.0 (register now id key t).1
unfolding register
register-Keeps now id key t k n w = elim (Bool-cases (has_key Bytes-discrete key t.auth)) [
  | inl found ↦ rw (found, register) (inl w)
  | inr missing ↦
      elim (Bool-cases (
        not (has_key Bytes-discrete key t.waiting)
        && leb max_in_flight_underlay_entries (length t.waiting))) [
          | inr room ↦ rw (missing, room, register) (inl (join_waiters-Keeps now id key t k n w))
          | inl full ↦
              elim (Bool-cases
                (leb max_in_flight_underlay_entries (length (swept now t).waiting))) [
                  | inl still ↦ rw (missing, full, still, register) (swept-Keeps now t k n w)
                  | inr room ↦
                      rw (missing, full, room, register)
                        (elim (swept-Keeps now t k n w) [
                          | inl w' ↦ inl (join_waiters-Keeps now id key (swept now t) k n w')
                          | inr woken ↦ inr woken
                        ])
                ]
        ]
]

pub register-parked :
    (now id : ℕ) (key : Bytes) (t : InFlight) (n : ℕ)
    → (register now id key t).0.1 ≡ parked n
    → IsAwaited (register now id key t).0.0 key n
unfolding register
register-parked now id key t n h = elim (Option-cases (find Bytes-discrete key t.auth)) [
  | inr (w, found) ↦ absurd (ground arith)
  | inl none_yet ↦
      elim (Bool-cases (
        not (has_key Bytes-discrete key t.waiting)
        && leb max_in_flight_underlay_entries (length t.waiting))) [
          | inr room ↦
              rw (none_yet, room, register)
                (join_waiters-parked now id key t n none_yet (rw (none_yet, room, register) at h))
          | inl full ↦
              elim (Bool-cases
                (leb max_in_flight_underlay_entries (length (swept now t).waiting))) [
                  | inl still ↦ absurd (ground arith)
                  | inr room ↦
                      rw (none_yet, full, room, register)
                        (join_waiters-parked now id key (swept now t) n none_yet
                          (rw (none_yet, full, room, register) at h))
                ]
        ]
]
