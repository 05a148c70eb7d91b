-- ===== src/Server/Pool/SingleCreator.antt =====
-- server/src/udp.rs: who creates an endpoint.
use juicity_rs.Base.{
  ℕ, ◌+◌, ◌≤◌, ◌≡◌, refl, ap, ◌∙◌, List, [], ◌∷◌, ◌++◌, Option, false, map, contains, if◌then◌else◌,
  ◌==◌, retain, arith,
}
use juicity_rs.Server.Pool.{
  Pool, Phase, Call, Event, goes_on, is_dropped, fails, opens, System, Step, arrives, evicts, acts,
  Reach, here, next, start, advance, go_on, end_open, claim, join, look, check_again, forget, wake,
  wake_phase, looking, claiming, joining, registering, checking, opening, removing, unregistering,
  notifying, joined, subscribing, waiting, returned,
}

-- Whether a call holds the right to create.
unfoldable pub owns : Phase → ℕ
owns (registering n) = 1
owns (checking n) = 1
owns (opening n) = 1
owns (removing n r) = 1
owns _ = 0

-- How many calls hold the right for an address.
unfoldable pub owners : ℕ → List Call → ℕ
unfolding owns
owners addr [] = 0
owners addr (c ∷ cs) = (if c.addr == addr then owns c.phase else 0) + owners addr cs

unfoldable pub claims : ℕ → Pool → ℕ
claims addr pool = if contains addr pool.creating then 1 else 0

owns-wake_phase : (o : Option ℕ) (ph : Phase) → owns (wake_phase o ph) ≡ owns ph
unfolding owns wake_phase
owns-wake_phase o ph = ground arith

owners-wake :
    (addr : ℕ) (o : Option ℕ) (cs : List Call) → owners addr (map (wake o) cs) ≡ owners addr cs
unfolding owners wake
owners-wake addr o [] = refl
owners-wake addr o (c ∷ cs) = ground (arith, owns-wake_phase o c.phase, owners-wake addr o cs)

owners-append :
    (addr : ℕ) (cs ds : List Call) → owners addr (cs ++ ds) ≡ owners addr cs + owners addr ds
unfolding owners
owners-append addr [] ds = omega arith
owners-append addr (c ∷ cs) ds = omega (arith, owners-append addr cs ds)

contains-forget :
    (addr other : ℕ) (creating : List ℕ)
    → contains other (forget addr creating)
      ≡ (if addr == other then false else contains other creating)
unfolding forget retain
contains-forget addr other [] = ground arith
contains-forget addr other (a ∷ creating) = ground (arith, contains-forget addr other creating)

-- A step of a call leaves the claims of other addresses alone, and changes that of its own address
-- together with its right.
go_on_once :
    (addr other : ℕ) (pool : Pool) (ph : Phase) (rest : ℕ)
    → (if addr == other then owns ph else 0) + rest ≤ claims other pool
    → (if addr == other then owns (go_on addr pool ph).0.1 else 0) + rest
      ≤ claims other (go_on addr pool ph).0.0
unfolding owns claims go_on
go_on_once addr other pool looking rest h = ground arith
go_on_once addr other pool claiming rest h = ground arith
go_on_once addr other pool joining rest h = ground arith
go_on_once addr other pool (registering n) rest h = ground arith
go_on_once addr other pool (checking n) rest h = ground arith
go_on_once addr other pool (opening n) rest h = ground arith
go_on_once addr other pool (removing n r) rest h =
    ground (arith, contains-forget addr other pool.creating)
go_on_once addr other pool (unregistering n r) rest h = ground arith
go_on_once addr other pool (notifying n r) rest h = ground arith
go_on_once addr other pool (joined n) rest h = ground arith
go_on_once addr other pool (subscribing n) rest h = ground arith
go_on_once addr other pool (waiting n) rest h = ground arith
go_on_once addr other pool (returned r) rest h = ground arith

end_open_once :
    (e : Event) (addr other : ℕ) (pool : Pool) (ph : Phase) (rest : ℕ)
    → (if addr == other then owns ph else 0) + rest ≤ claims other pool
    → (if addr == other then owns (end_open e addr pool ph).1 else 0) + rest
      ≤ claims other (end_open e addr pool ph).0
unfolding owns claims end_open
end_open_once e addr other pool ph rest h = ground arith

advance_once :
    (e : Event) (addr other : ℕ) (pool : Pool) (ph : Phase) (rest : ℕ)
    → (if addr == other then owns ph else 0) + rest ≤ claims other pool
    → (if addr == other then owns (advance e addr pool ph).0.1 else 0) + rest
      ≤ claims other (advance e addr pool ph).0.0
unfolding advance
advance_once goes_on addr other pool ph rest h = go_on_once addr other pool ph rest h
advance_once is_dropped addr other pool ph rest h =
    end_open_once is_dropped addr other pool ph rest h
advance_once fails addr other pool ph rest h = end_open_once fails addr other pool ph rest h
advance_once (opens ep) addr other pool ph rest h =
    end_open_once (opens ep) addr other pool ph rest h

abbrev Claimed : System → Type 0
Claimed s = (addr : ℕ) → owners addr s.calls ≤ claims addr s.pool

Step-Claimed : {s u : System} → Step s u → Claimed s → Claimed u
unfolding owners claims juicity_rs.Server.Pool.remove
Step-Claimed (arrives a e) h addr = rw e (ground (arith, h addr))
Step-Claimed (evicts a e) h addr = rw e (h addr)
Step-Claimed {s} (acts e before after c eq eu) h addr =
    let r = advance e c.addr s.pool c.phase in
    let mine = if c.addr == addr then owns c.phase else 0 in
    let total : owners addr s.calls ≡ owners addr before + (mine + owners addr after) =
      ap (owners addr) eq ∙ owners-append addr before (c ∷ after) in
    rw eu (
      omega (
        arith,
        advance_once e c.addr addr s.pool c.phase (owners addr before + owners addr after)
            (omega (arith, total, h addr)),
        owners-append addr (map (wake r.1) before)
            ((record c { phase = r.0.1 }) ∷ map (wake r.1) after),
        owners-wake addr r.1 before,
        owners-wake addr r.1 after,
      ))

-- However callers, failures, cancellations and evictions interleave, at most one call at a time
-- creates an endpoint for an address, and none unless the address is in `creating`.
pub Reach-owners-le-claims :
    {s : System} → Reach start s → (addr : ℕ) → owners addr s.calls ≤ claims addr s.pool
unfolding owners
Reach-owners-le-claims here addr = omega arith
Reach-owners-le-claims (next r st) addr = Step-Claimed st (Reach-owners-le-claims r) addr
