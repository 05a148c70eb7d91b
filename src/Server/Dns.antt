-- ===== src/Server/Dns.antt =====
-- server/src/server.rs: `resolve_udp_target`, the bounded cache of resolved names with one lookup
-- at a time for each name. A call is a state machine over the critical sections; names with their
-- port, addresses, notifiers and instants (in seconds) are numbers.
pub mod Capacity
pub mod SingleFlight
pub mod Wakeups
use native.Mathlib.Decide.{ℕ_discrete}
use juicity_rs.Base.{
  ℕ, ◌+◌, ◌-◌, ◌≡◌, List, [], ◌∷◌, ◌++◌, Option, none, some, Bool, true, false, map, length, leb,
  ltb, if◌then◌else◌, ◌==◌, find, put, del,
}

abbrev pub max_udp_dns_cache : ℕ
max_udp_dns_cache = 256

abbrev pub udp_dns_cache_ttl : ℕ
udp_dns_cache_ttl = 300

-- An `IndexMap`: the entries in their order, each an address and the instant of its insertion.
abbrev pub Cache : Type 0
Cache = List (ℕ × (ℕ × ℕ))

-- The last entry moved to the front, which takes the place of a removed one.
unfoldable pub move_last : Cache → Cache
move_last [] = []
move_last (x ∷ []) = x ∷ []
move_last (x ∷ (y ∷ ys)) = elim (move_last (y ∷ ys)) [
  | [] ↦ x ∷ []
  | last ∷ front ↦ last ∷ (x ∷ front)
]

-- `IndexMap::swap_remove`
unfoldable pub swap_remove : ℕ → Cache → Cache
unfolding move_last
swap_remove key [] = []
swap_remove key ((k, v) ∷ cache) =
    if k == key then move_last cache else (k, v) ∷ swap_remove key cache

-- The removal of the first key that makes room.
unfoldable pub make_room : Cache → Cache
unfolding swap_remove
make_room [] = []
make_room ((k, v) ∷ cache) =
    if leb max_udp_dns_cache (length ((k, v) ∷ cache))
    then swap_remove k ((k, v) ∷ cache)
    else (k, v) ∷ cache

-- `dns_cache` and `dns_resolving`; `fresh` is the next notifier.
pub record Dns : Type 0 where
  pub cache : Cache
  pub resolving : List (ℕ × ℕ)
  pub fresh : ℕ

-- Where a call stands: at its start, before the critical section of its loop, in its lookup, with
-- the address that it stores, within the drop of its guard with its result before the key is
-- removed and before the waiters are notified, subscribed to a notifier, or returned.
pub data Phase : Type 0 where
  calling entering : Phase
  looking_up waiting : ℕ → Phase
  storing : ℕ → ℕ → Phase
  removing notifying : ℕ → Option ℕ → Phase
  returned : Option ℕ → Phase

-- A call, with the address if the host is an IP address.
pub record Call : Type 0 where
  pub key : ℕ
  pub literal : Option ℕ
  pub phase : Phase

-- A call goes on at an instant; its lookup gives an address or fails; its deadline passes, or its
-- future is dropped.
pub data Event : Type 0 where
  goes_on : ℕ → Event
  resolves : ℕ → Event
  fails expires : Event

-- The entry under the key, if it is not too old.
unfoldable pub cached : ℕ → ℕ → Cache → Option ℕ
cached now key cache = elim (find ℕ_discrete key cache) [
  | some (mapped, timestamp) ↦ if ltb (now - timestamp) udp_dns_cache_ttl then some mapped else none
  | none ↦ none
]

-- Wait for the call that resolves the key, or resolve it.
unfoldable pub wait_or_lead : ℕ → Dns → Dns × Phase
wait_or_lead key dns = elim (find ℕ_discrete key dns.resolving) [
  | some n ↦ (dns, waiting n)
  | none ↦ (
    record dns { resolving = put ℕ_discrete key dns.fresh dns.resolving; fresh = dns.fresh + 1 },
    looking_up dns.fresh,
  )
]

-- The critical section of the loop. `swap_remove` of a missing key does nothing.
unfoldable pub enter : ℕ → ℕ → Dns → Dns × Phase
unfolding cached wait_or_lead swap_remove
enter now key dns = elim (cached now key dns.cache) [
  | some mapped ↦ (dns, returned (some mapped))
  | none ↦ wait_or_lead key (record dns { cache = swap_remove key dns.cache })
]

-- The insertion of a resolved address.
unfoldable pub store : ℕ → ℕ → ℕ → Dns → Dns
unfolding make_room
store now key resolved dns = record dns {
  cache = put ℕ_discrete key (resolved, now) (make_room dns.cache);
}

unfoldable pub go_on : ℕ → ℕ → Option ℕ → Dns → Phase → (Dns × Phase) × Option ℕ
unfolding enter store
go_on now key (some ip) dns calling = ((dns, returned (some ip)), none)
go_on now key none dns calling = ((dns, entering), none)
go_on now key literal dns entering = (enter now key dns, none)
go_on now key literal dns (looking_up n) = ((dns, looking_up n), none)
go_on now key literal dns (waiting n) = ((dns, waiting n), none)
go_on now key literal dns (storing n resolved) =
    ((store now key resolved dns, removing n (some resolved)), none)
go_on now key literal dns (removing n r) =
    ((record dns { resolving = del ℕ_discrete key dns.resolving }, notifying n r), none)
go_on now key literal dns (notifying n r) = ((dns, returned r), some n)
go_on now key literal dns (returned r) = ((dns, returned r), none)

-- The end of a lookup or of a wait.
unfoldable pub end_wait : Event → Phase → Phase
end_wait (resolves a) (looking_up n) = storing n a
end_wait fails (looking_up n) = removing n none
end_wait expires (looking_up n) = removing n none
end_wait expires (waiting n) = returned none
end_wait e ph = ph

unfoldable pub advance : Event → ℕ → Option ℕ → Dns → Phase → (Dns × Phase) × Option ℕ
unfolding go_on end_wait
advance (goes_on now) key literal dns ph = go_on now key literal dns ph
advance e key literal dns ph = ((dns, end_wait e ph), none)

-- `notify_waiters`: who waits on the notifier enters the critical section again.
unfoldable pub wake_phase : Option ℕ → Phase → Phase
wake_phase (some n) (waiting m) = if m == n then entering else waiting m
wake_phase o ph = ph

unfoldable pub wake : Option ℕ → Call → Call
unfolding wake_phase
wake o c = record c { phase = wake_phase o c.phase }

pub record System : Type 0 where
  pub dns : Dns
  pub calls : List Call

-- Any interleaving of the streams of a connection.
pub data Step (s u : System) : Type 0 where
  arrives :
      (key : ℕ) (literal : Option ℕ)
      → u
        ≡ record s { calls = (record { key = key; literal = literal; phase = calling }) ∷ s.calls }
      → Step s u
  acts :
      (e : Event) (before after : List Call) (c : Call)
      → s.calls ≡ before ++ (c ∷ after)
      → u ≡ record s {
        dns = (advance e c.key c.literal s.dns c.phase).0.0;
        calls =
            map (wake (advance e c.key c.literal s.dns c.phase).1) before
            ++ ((record c { phase = (advance e c.key c.literal s.dns c.phase).0.1 })
                ∷ map (wake (advance e c.key c.literal s.dns c.phase).1) after);
      }
      → Step s u

pub data Reach (s : System) : System → Type 0 where
  here : Reach s s
  next : {t u : System} → Reach s t → Step t u → Reach s u

abbrev pub start : System
start = record { dns = record { cache = []; resolving = []; fresh = 0 }; calls = [] }
