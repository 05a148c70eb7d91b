-- ===== src/Reconnect.antt =====
-- client/src/client.rs: the shared connection. Each critical section of `reconnect_lock` and each
-- look at the connection is one step of a task in `connect_inner`; instants, connections, errors
-- and notifiers are numbers.
pub mod SingleFlight
pub mod Abandoned
pub mod Backoff
use juicity_rs.Base.{
  ℕ, zero, suc, ◌⊎◌, inl, inr, ◌+◌, ◌-◌, ◌^◌, ◌≡◌, min, List, [], ◌∷◌, ◌++◌, Option, none, some,
  Bool, true, false, not, ◌&&◌, ◌||◌, Result, ok, err, map, contains, ltb, if◌then◌else◌, ◌==◌,
}

-- The delay in seconds: `(1u64 << attempts.min(5)).min(30)`.
unfoldable pub reconnect_delay : ℕ → ℕ
reconnect_delay attempts = min (2 ^ min attempts 5) 30

-- What is left to dial, with the last error; a timeout is an error of its own.
unfoldable pub try_addresses {ℓ} :
    {A E : Type ℓ} {T : Type 0} → (A → T ⊎ E) → Option E → List A → T ⊎ Option E
try_addresses connect error [] = inr error
try_addresses connect error (addr ∷ addresses) = elim (connect addr) [
  | inl connection ↦ inl connection
  | inr e ↦ try_addresses connect (some e) addresses
]

pub record ReconnectState : Type 0 where
  pub last_failure : Option (ℕ × ℕ)
  pub attempts : ℕ
  pub in_flight : Bool
  pub record_failure : Bool
  pub done : Option ℕ

unfoldable pub default_state : ReconnectState
default_state = record {
  last_failure = none;
  attempts = 0;
  in_flight = false;
  record_failure = false;
  done = none;
}

-- The shared part of a client. A connection has a close reason once it is in `closed`; the
-- authentication stream is named by its connection.
pub record Client : Type 0 where
  pub reconnect : ReconnectState
  pub connection : Option ℕ
  pub auth_uni_stream : Option ℕ
  pub closed : List ℕ

-- Where a task stands: before its look at the connection, before the lock, subscribed to a
-- notifier (with whether it has fired) before the two checks and after them, woken, before the
-- second lock, leading before it drops the stale connection and its stream, while it dials and
-- once it has stored the new stream, or returned. A dropped future is gone.
pub data Phase : Type 0 where
  looking deciding woken judging dropped : Phase
  subscribed rechecking parked : ℕ → Bool → Phase
  clearing clearing_auth dialing : ℕ → Phase
  publishing : ℕ → ℕ → Phase
  connected failed : ℕ → Phase

pub record Task : Type 0 where
  pub record_failure : Bool
  pub phase : Phase

unfoldable pub live : Option ℕ → List ℕ → Option ℕ
live none closed = none
live (some conn) closed = if contains conn closed then none else some conn

unfoldable pub live_connection : Client → Option ℕ
unfolding live
live_connection c = live c.connection c.closed

-- `last.elapsed() < reconnect_delay(attempts)`, with the error.
unfoldable pub backing_off : ℕ → ReconnectState → Option ℕ
unfolding reconnect_delay
backing_off now r = elim r.last_failure [
  | none ↦ none
  | some (last, error) ↦ if ltb (now - last) (reconnect_delay r.attempts) then some error else none
]

-- Under the lock, with nothing to return: join the attempt that is in flight, or lead one with
-- the new notifier `id`.
unfoldable pub join_or_lead : ℕ → Bool → Client → Client × Phase
join_or_lead id record_failure c =
    if c.reconnect.in_flight
    then (
      record c {
        reconnect = record c.reconnect {
          record_failure = record_failure || c.reconnect.record_failure;
        };
      },
      subscribed (elim c.reconnect.done [ some n ↦ n | none ↦ 0 ]) false,
    )
    else (
      record c {
        reconnect = record c.reconnect {
          in_flight = true;
          record_failure = record_failure;
          done = some id;
        };
      },
      clearing id,
    )

unfoldable pub decide : ℕ → ℕ → Bool → Client → Client × Phase
unfolding live_connection backing_off join_or_lead
decide now id record_failure c = elim (live_connection c) [
  | some conn ↦ (c, connected conn)
  | none ↦ elim (backing_off now c.reconnect) [
    | some error ↦ (c, failed error)
    | none ↦ join_or_lead id record_failure c
  ]
]

-- The last failure's error, or another try.
unfoldable pub failed_or_retry : ReconnectState → Phase
failed_or_retry r = elim r.last_failure [ some (last, error) ↦ failed error | none ↦ deciding ]

-- The lock in `wait_for_reconnect` before the wait.
unfoldable pub recheck : ℕ → Bool → Client → Phase
unfolding live_connection failed_or_retry
recheck n fired c = if c.reconnect.in_flight then parked n fired else elim (live_connection c) [
  | some conn ↦ connected conn
  | none ↦ failed_or_retry c.reconnect
]

-- The leader's error branch; `attempts` saturates at 2^32 - 1.
unfoldable pub publish_failure : ℕ → ℕ → Client → Client
publish_failure now error c =
    let r = c.reconnect in
    let r' =
      if r.record_failure
      then record r {
        last_failure = some (now, error);
        attempts = min (r.attempts + 1) (2 ^ 32 - 1);
      }
      else r in
    record c { reconnect = record r' { in_flight = false; done = none } }

-- The leader's success under the lock, once the authentication stream is stored.
unfoldable pub publish_connection : ℕ → Client → Client
unfolding default_state
publish_connection conn c = record c { connection = some conn; reconnect = default_state }

-- `Drop` of the leader's guard: the state is cleared only if the lock is free. With the notifier
-- that fires.
unfoldable pub abandon : Bool → Client → Client × Option ℕ
abandon locked c = if locked then (c, none) else (
  record c { reconnect = record c.reconnect { in_flight = false; done = none } },
  c.reconnect.done,
)

-- A task goes on at an instant, with a number for a new notifier; its dial ends; or its future is
-- dropped while the lock is held by another task, or free.
pub data Event : Type 0 where
  goes_on : ℕ → ℕ → Event
  dial_succeeds : ℕ → Event
  dial_fails : ℕ → ℕ → Event
  is_dropped : Bool → Event

-- A task that goes on, up to where it waits for its dial or a notifier.
unfoldable pub go_on : ℕ → ℕ → Bool → Client → Phase → (Client × Phase) × Option ℕ
unfolding decide recheck publish_connection
go_on now id rf c looking =
    ((c, elim (live_connection c) [ some conn ↦ connected conn | none ↦ deciding ]), none)
go_on now id rf c deciding = (decide now id rf c, none)
go_on now id rf c (subscribed n fired) =
    ((c, elim (live_connection c) [ some conn ↦ connected conn | none ↦ rechecking n fired ]), none)
go_on now id rf c (rechecking n fired) = ((c, recheck n fired c), none)
go_on now id rf c (parked n fired) = ((c, if fired then woken else parked n fired), none)
go_on now id rf c woken =
    ((c, elim (live_connection c) [ some conn ↦ connected conn | none ↦ judging ]), none)
go_on now id rf c judging = ((c, failed_or_retry c.reconnect), none)
go_on now id rf c (clearing n) = ((record c { connection = none }, clearing_auth n), none)
go_on now id rf c (clearing_auth n) = ((record c { auth_uni_stream = none }, dialing n), none)
go_on now id rf c (publishing n conn) = ((publish_connection conn c, connected conn), some n)
go_on now id rf c ph = ((c, ph), none)

unfoldable pub end_dial : Event → Client → Phase → (Client × Phase) × Option ℕ
unfolding publish_failure
end_dial (dial_succeeds conn) c (dialing n) =
    ((record c { auth_uni_stream = some conn }, publishing n conn), none)
end_dial (dial_fails now error) c (dialing n) =
    ((publish_failure now error c, failed error), some n)
end_dial e c ph = ((c, ph), none)

-- The guard exists from the moment that the task leads.
unfoldable pub drop_task : Bool → Client → Phase → (Client × Phase) × Option ℕ
unfolding abandon
drop_task locked c (clearing n) = (((abandon locked c).0, dropped), (abandon locked c).1)
drop_task locked c (clearing_auth n) = (((abandon locked c).0, dropped), (abandon locked c).1)
drop_task locked c (dialing n) = (((abandon locked c).0, dropped), (abandon locked c).1)
drop_task locked c (publishing n conn) = (((abandon locked c).0, dropped), (abandon locked c).1)
drop_task locked c (connected conn) = ((c, connected conn), none)
drop_task locked c (failed error) = ((c, failed error), none)
drop_task locked c ph = ((c, dropped), none)

unfoldable pub advance : Event → Bool → Client → Phase → (Client × Phase) × Option ℕ
unfolding go_on end_dial drop_task
advance (goes_on now id) rf c ph = go_on now id rf c ph
advance (is_dropped locked) rf c ph = drop_task locked c ph
advance e rf c ph = end_dial e c ph

-- `notify_waiters`
unfoldable pub fire_phase : Option ℕ → Phase → Phase
fire_phase (some n) (subscribed m fired) = subscribed m (fired || m == n)
fire_phase (some n) (rechecking m fired) = rechecking m (fired || m == n)
fire_phase (some n) (parked m fired) = parked m (fired || m == n)
fire_phase o ph = ph

unfoldable pub fire : Option ℕ → Task → Task
unfolding fire_phase
fire o t = record t { phase = fire_phase o t.phase }

pub record System : Type 0 where
  pub client : Client
  pub tasks : List Task

-- Any interleaving of the callers of `connect` and `preconnect`.
pub data Step (s u : System) : Type 0 where
  calls :
      (record_failure : Bool)
      → u ≡ record s {
        tasks = (record { record_failure = record_failure; phase = looking }) ∷ s.tasks;
      }
      → Step s u
  closes :
      (conn : ℕ)
      → u ≡ record s { client = record s.client { closed = conn ∷ s.client.closed } }
      → Step s u
  acts :
      (e : Event) (before after : List Task) (t : Task)
      → s.tasks ≡ before ++ (t ∷ after)
      → u ≡ record s {
        client = (advance e t.record_failure s.client t.phase).0.0;
        tasks =
            map (fire (advance e t.record_failure s.client t.phase).1) before
            ++ ((record t { phase = (advance e t.record_failure s.client t.phase).0.1 })
                ∷ map (fire (advance e t.record_failure s.client t.phase).1) after);
      }
      → Step s u

pub data Reach (s : System) : System → Type 0 where
  here : Reach s s
  next : {t u : System} → Reach s t → Step t u → Reach s u

abbrev pub start : System
start = record {
  client = record {
    reconnect = record {
      last_failure = none;
      attempts = 0;
      in_flight = false;
      record_failure = false;
      done = none;
    };
    connection = none;
    auth_uni_stream = none;
    closed = [];
  };
  tasks = [];
}
