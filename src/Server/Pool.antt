-- ===== src/Server/Pool.antt =====
-- server/src/udp.rs: the pool of UDP endpoints. A caller of `get_or_create` is a state machine, one
-- step for each lock or look at the cache; addresses, endpoints and notifiers are numbers.
pub mod SingleCreator
pub mod Stranded
use native.Mathlib.Decide.{ℕ_discrete}
use juicity_rs.Base.{
  ℕ, ◌+◌, ◌≡◌, List, [], ◌∷◌, ◌++◌, Option, none, some, Bool, true, false, not, map, contains,
  if◌then◌else◌, ◌==◌, find, put, del, retain,
}

-- `inner` maps an address to an endpoint; `fresh` is the next notifier.
pub record Pool : Type 0 where
  pub inner : List (ℕ × ℕ)
  pub creating : List ℕ
  pub notify_map : List (ℕ × ℕ)
  pub fresh : ℕ

-- Where a call stands: before its look at the cache, before `creating.insert`, as the creator with
-- its notifier before it registers it, before its second look and while it awaits the endpoint,
-- within the drop of its guard with its result before each of the three actions, before it gets a
-- notifier to wait on, before it looks at `creating` again, before it calls `notified`, waiting, or
-- returned with the endpoint, if there is one and the call was not dropped, and whether it is new.
pub data Phase : Type 0 where
  looking claiming joining : Phase
  registering checking opening : ℕ → Phase
  removing unregistering notifying : ℕ → Option (ℕ × Bool) → Phase
  joined subscribing waiting : ℕ → Phase
  returned : Option (ℕ × Bool) → Phase

pub record Call : Type 0 where
  pub addr : ℕ
  pub phase : Phase

-- A call goes on; the endpoint that it awaits is there, or fails; or its future is dropped.
pub data Event : Type 0 where
  goes_on is_dropped fails : Event
  opens : ℕ → Event

-- `HashSet::remove`
unfoldable pub forget : ℕ → List ℕ → List ℕ
forget addr creating = retain (λ a. not (a == addr)) creating

-- `get_socket`
unfoldable pub get_socket : ℕ → Pool → Option ℕ
get_socket addr pool = find ℕ_discrete addr pool.inner

-- `remove`, and an eviction of the cache.
unfoldable pub remove : ℕ → Pool → Pool
remove addr pool = record pool { inner = del ℕ_discrete addr pool.inner }

-- The first `creating.insert`, with the new notifier of the call.
unfoldable pub claim : ℕ → Pool → Pool × Phase
claim addr pool =
    if contains addr pool.creating then (record pool { fresh = pool.fresh + 1 }, joining) else (
      record pool { creating = addr ∷ pool.creating; fresh = pool.fresh + 1 },
      registering pool.fresh,
    )

-- `entry(addr).or_insert_with(Notify::new)`
unfoldable pub join : ℕ → Pool → Pool × Phase
join addr pool = elim (find ℕ_discrete addr pool.notify_map) [
  | some n ↦ (pool, joined n)
  | none ↦ (
    record pool {
      notify_map = put ℕ_discrete addr pool.fresh pool.notify_map;
      fresh = pool.fresh + 1;
    },
    joined pool.fresh,
  )
]

-- The look at the cache that comes first.
unfoldable pub look : ℕ → Pool → Phase
unfolding get_socket
look addr pool = elim (get_socket addr pool) [
  | some ep ↦ returned (some (ep, false))
  | none ↦ claiming
]

-- The creator's second look.
unfoldable pub check_again : ℕ → ℕ → Pool → Phase
unfolding get_socket
check_again n addr pool = elim (get_socket addr pool) [
  | some ep ↦ removing n (some (ep, false))
  | none ↦ opening n
]

-- A step of a call, with the notifier whose waiters it wakes.
unfoldable pub go_on : ℕ → Pool → Phase → (Pool × Phase) × Option ℕ
unfolding claim join look check_again forget
go_on addr pool looking = ((pool, look addr pool), none)
go_on addr pool claiming = (claim addr pool, none)
go_on addr pool (registering n) =
    ((record pool { notify_map = put ℕ_discrete addr n pool.notify_map }, checking n), none)
go_on addr pool (checking n) = ((pool, check_again n addr pool), none)
go_on addr pool (removing n r) =
    ((record pool { creating = forget addr pool.creating }, unregistering n r), none)
go_on addr pool (unregistering n r) =
    ((record pool { notify_map = del ℕ_discrete addr pool.notify_map }, notifying n r), none)
go_on addr pool (notifying n r) = ((pool, returned r), some n)
go_on addr pool joining = (join addr pool, none)
go_on addr pool (joined n) =
    ((pool, if contains addr pool.creating then subscribing n else looking), none)
go_on addr pool (subscribing n) = ((pool, waiting n), none)
go_on addr pool (opening n) = ((pool, opening n), none)
go_on addr pool (waiting n) = ((pool, waiting n), none)
go_on addr pool (returned r) = ((pool, returned r), none)

-- The end of `UdpEndpoint::new`, and the drop of a call's future where it is suspended: in
-- `UdpEndpoint::new`, in `notified`, or woken from there.
unfoldable pub end_open : Event → ℕ → Pool → Phase → Pool × Phase
end_open (opens ep) addr pool (opening n) =
    (record pool { inner = put ℕ_discrete addr ep pool.inner }, removing n (some (ep, true)))
end_open fails addr pool (opening n) = (pool, removing n none)
end_open is_dropped addr pool (opening n) = (pool, removing n none)
end_open is_dropped addr pool (waiting n) = (pool, returned none)
end_open is_dropped addr pool looking = (pool, returned none)
end_open e addr pool ph = (pool, ph)

unfoldable pub advance : Event → ℕ → Pool → Phase → (Pool × Phase) × Option ℕ
unfolding go_on end_open
advance goes_on addr pool ph = go_on addr pool ph
advance e addr pool ph = (end_open e addr pool ph, none)

-- `notify_waiters`: who waits on the notifier looks at the cache again.
unfoldable pub wake_phase : Option ℕ → Phase → Phase
wake_phase (some n) (waiting m) = if m == n then looking else waiting m
wake_phase o ph = ph

unfoldable pub wake : Option ℕ → Call → Call
unfolding wake_phase
wake o c = record c { phase = wake_phase o c.phase }

pub record System : Type 0 where
  pub pool : Pool
  pub calls : List Call

-- Any interleaving of the callers, with removals and evictions.
pub data Step (s u : System) : Type 0 where
  arrives :
      (addr : ℕ)
      → u ≡ record s { calls = (record { addr = addr; phase = looking }) ∷ s.calls }
      → Step s u
  evicts : (addr : ℕ) → u ≡ record s { pool = remove addr s.pool } → Step s u
  acts :
      (e : Event) (before after : List Call) (c : Call)
      → s.calls ≡ before ++ (c ∷ after)
      → u ≡ record s {
        pool = (advance e c.addr s.pool c.phase).0.0;
        calls =
            map (wake (advance e c.addr s.pool c.phase).1) before
            ++ ((record c { phase = (advance e c.addr s.pool c.phase).0.1 })
                ∷ map (wake (advance e c.addr s.pool c.phase).1) after);
      }
      → Step s u

pub data Reach (s : System) : System → Type 0 where
  here : Reach s s
  next : {t u : System} → Reach s t → Step t u → Reach s u

abbrev pub start : System
start = record {
  pool = record { inner = []; creating = []; notify_map = []; fresh = 0 };
  calls = [];
}
