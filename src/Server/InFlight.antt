-- ===== src/Server/InFlight.antt =====
-- server/src/inflight.rs: the table that matches UDP packets to the underlay authentication of
-- the QUIC stream. Each critical section of the mutex is one function of the table, and a packet
-- in `evict` is a state machine over them; instants are numbers.
pub mod Capacity
pub mod Wakeups
pub mod Once
use juicity_rs.Base.{
  ℕ, suc, ◌+◌, ◌-◌, ◌≤◌, ◌≡◌, List, [], ◌∷◌, ◌++◌, Option, none, some, Bool, true, false, not, ◌&&◌,
  Bytes, length, leb, contains, map, if◌then◌else◌, ◌==◌, is_some, Bytes-discrete, find, has_key,
  put, del, retain,
}
use juicity_rs.Protocol.Wire.{UnderlayAuth}

abbrev pub max_in_flight_underlay_entries : ℕ
max_in_flight_underlay_entries = 10_000

-- `Instant` of insertion beside each value; a waiter is the identity of its `Notify`.
pub record InFlight : Type 0 where
  pub ttl : ℕ
  pub evict_timeout : ℕ
  pub auth : List (Bytes × (UnderlayAuth × ℕ))
  pub waiting : List (Bytes × (ℕ × ℕ))

unfoldable pub new_in_flight : ℕ → ℕ → InFlight
new_in_flight ttl evict_timeout = record {
  ttl = ttl;
  evict_timeout = evict_timeout;
  auth = [];
  waiting = [];
}

-- `now.duration_since(inserted_at) <= ttl`, where the difference saturates at zero.
abbrev pub fresh_auth : ℕ → ℕ → Bytes × (UnderlayAuth × ℕ) → Bool
fresh_auth ttl now (key, (auth, inserted_at)) = leb (now - inserted_at) ttl

abbrev pub fresh_waiter : ℕ → ℕ → Bytes × (ℕ × ℕ) → Bool
fresh_waiter timeout now (key, (notify, inserted_at)) = leb (now - inserted_at) timeout

-- The notifiers that a `retain` over the waiters wakes.
unfoldable pub expired_notifies : ℕ → ℕ → List (Bytes × (ℕ × ℕ)) → List ℕ
expired_notifies timeout now [] = []
expired_notifies timeout now (w ∷ ws) =
    if fresh_waiter timeout now w
    then expired_notifies timeout now ws
    else w.1.0 ∷ expired_notifies timeout now ws

-- The end of `store`: insert, and wake those who wait for the key.
unfoldable pub insert_auth : ℕ → Bytes → UnderlayAuth → InFlight → InFlight × List ℕ
insert_auth now key auth t = (
  record t {
    auth = put Bytes-discrete key (auth, now) t.auth;
    waiting = del Bytes-discrete key t.waiting;
  },
  elim (find Bytes-discrete key t.waiting) [ some w ↦ w.0 ∷ [] | none ↦ [] ],
)

-- `InFlightUnderlayKey::store`: the table and the notifiers that were woken.
unfoldable pub store : ℕ → Bytes → UnderlayAuth → InFlight → InFlight × List ℕ
unfolding insert_auth
store now key auth t =
    if not (has_key Bytes-discrete key t.auth) && leb max_in_flight_underlay_entries (length t.auth)
    then (let t' = record t { auth = retain (fresh_auth t.ttl now) t.auth } in
        if leb max_in_flight_underlay_entries (length t'.auth)
        then (t', [])
        else insert_auth now key auth t')
    else insert_auth now key auth t

-- `InFlightUnderlayKey::cleanup`
unfoldable pub cleanup : ℕ → InFlight → InFlight × List ℕ
unfolding expired_notifies
cleanup now t = (
  record t {
    auth = retain (fresh_auth t.ttl now) t.auth;
    waiting = retain (fresh_waiter t.evict_timeout now) t.waiting;
  },
  expired_notifies t.evict_timeout now t.waiting,
)

-- Where a packet stands in `evict`: before the claim, with a claimed entry, between the claim
-- and the wait, waiting on a notifier, or returned.
pub data Phase : Type 0 where
  looking registering : Phase
  claimed : UnderlayAuth → ℕ → Phase
  parked : ℕ → Phase
  finished : Option UnderlayAuth → Phase

pub record Packet : Type 0 where
  pub key : Bytes
  pub deadline : ℕ
  -- whether the callback `authenticate` succeeds
  pub verifies : UnderlayAuth → Bool
  pub phase : Phase

-- The second critical section: take the entry if it is still the one that was claimed.
unfoldable pub consume : Bytes → UnderlayAuth → ℕ → InFlight → InFlight × Phase
consume key auth inserted_at t = elim (find Bytes-discrete key t.auth) [
  | some (_, stored_at) ↦
      if stored_at == inserted_at
      then (record t { auth = del Bytes-discrete key t.auth }, finished (some auth))
      else (t, finished none)
  | none ↦ (t, finished none)
]

-- `entry(key).or_insert_with(Notify::new)`, where `id` is the new notifier's identity.
unfoldable pub join_waiters : ℕ → ℕ → Bytes → InFlight → InFlight × Phase
join_waiters now id key t = elim (find Bytes-discrete key t.waiting) [
  | some (notify, _) ↦ (t, parked notify)
  | none ↦ (record t { waiting = put Bytes-discrete key (id, now) t.waiting }, parked id)
]

-- The third critical section: the wait, with the notifiers that it wakes to make room.
unfoldable pub register : ℕ → ℕ → Bytes → InFlight → (InFlight × Phase) × List ℕ
unfolding join_waiters expired_notifies
register now id key t =
    if has_key Bytes-discrete key t.auth
    then ((t, looking), [])
    else if not (has_key Bytes-discrete key t.waiting)
        && leb max_in_flight_underlay_entries (length t.waiting)
    then (let t' = record t { waiting = retain (fresh_waiter t.evict_timeout now) t.waiting } in
        (
          (if leb max_in_flight_underlay_entries (length t'.waiting)
              then (t', finished none)
              else join_waiters now id key t'),
          expired_notifies t.evict_timeout now t.waiting,
        ))
    else (join_waiters now id key t, [])

-- One step of a packet, by its phase. A parked packet that steps by itself has timed out.
unfoldable pub advance_from : ℕ → ℕ → Packet → InFlight → Phase → (InFlight × Phase) × List ℕ
unfolding consume register
advance_from now id p t looking = elim (find Bytes-discrete p.key t.auth) [
  | some (auth, inserted_at) ↦ ((t, claimed auth inserted_at), [])
  | none ↦ ((t, registering), [])
]
advance_from now id p t registering = register now id p.key t
advance_from now id p t (claimed auth inserted_at) =
    if p.verifies auth then (consume p.key auth inserted_at t, []) else ((t, finished none), [])
advance_from now id p t (parked notify) = ((t, finished none), [])
advance_from now id p t (finished r) = ((t, finished r), [])

unfoldable pub advance : ℕ → ℕ → Packet → InFlight → (InFlight × Phase) × List ℕ
unfolding advance_from
advance now id p t = advance_from now id p t p.phase

-- `notify_waiters`: the parked packets of these notifiers look again.
unfoldable pub wake_phase : List ℕ → Phase → Phase
wake_phase ids (parked notify) = if contains notify ids then looking else parked notify
wake_phase ids ph = ph

unfoldable pub wake : List ℕ → Packet → Packet
unfolding wake_phase
wake ids p = record p { phase = wake_phase ids p.phase }

-- The table, the packets in `evict`, and the salts with which `store` was called.
pub record System : Type 0 where
  pub table : InFlight
  pub packets : List Packet
  pub stores : List Bytes

abbrev pub with_phase : Packet → Phase → Packet
with_phase p ph = record p { phase = ph }

-- Any interleaving of the tasks of the server.
pub data Step (s u : System) : Type 0 where
  arrives : (p : Packet) → p.phase ≡ looking → u ≡ record s { packets = p ∷ s.packets } → Step s u
  stores_auth :
      (now : ℕ) (key : Bytes) (auth : UnderlayAuth)
      → u ≡ record {
        table = (store now key auth s.table).0;
        packets = map (wake (store now key auth s.table).1) s.packets;
        stores = key ∷ s.stores;
      }
      → Step s u
  cleans :
      (now : ℕ)
      → u ≡ record s {
        table = (cleanup now s.table).0;
        packets = map (wake (cleanup now s.table).1) s.packets;
      }
      → Step s u
  advances :
      (now id : ℕ) (before after : List Packet) (p : Packet)
      → s.packets ≡ before ++ (p ∷ after)
      → u ≡ record s {
        table = (advance now id p s.table).0.0;
        packets =
            map (wake (advance now id p s.table).1) before
            ++ (with_phase p (advance now id p s.table).0.1
                ∷ map (wake (advance now id p s.table).1) after);
      }
      → Step s u

pub data Reach (s : System) : System → Type 0 where
  here : Reach s s
  next : {t u : System} → Reach s t → Step t u → Reach s u

abbrev pub start : ℕ → ℕ → System
start ttl evict_timeout = record {
  table = record { ttl = ttl; evict_timeout = evict_timeout; auth = []; waiting = [] };
  packets = [];
  stores = [];
}
