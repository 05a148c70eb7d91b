-- ===== src/Server/Pool/Stranded.antt =====
-- server/src/udp.rs: callers that no notification reaches.
use juicity_rs.Base.{
  ℕ, ◌+◌, ◌≤◌, ◌<◌, ◌≡◌, refl, ap, ◌∙◌, List, [], ◌∷◌, ◌++◌, Option, none, some, map, if◌then◌else◌,
  ◌==◌, arith,
}
use juicity_rs.Server.Pool.{
  Pool, Phase, Call, Event, goes_on, is_dropped, fails, opens, System, Step, arrives, evicts, acts,
  Reach, here, next, advance, go_on, end_open, claim, join, look, check_again, wake, wake_phase,
  looking, claiming, joining, registering, checking, opening, removing, unregistering, notifying,
  joined, subscribing, waiting, returned,
}

-- Whether a call is going to fire a notifier.
unfoldable pub holds : ℕ → Phase → ℕ
holds n (registering m) = if m == n then 1 else 0
holds n (checking m) = if m == n then 1 else 0
holds n (opening m) = if m == n then 1 else 0
holds n (removing m r) = if m == n then 1 else 0
holds n (unregistering m r) = if m == n then 1 else 0
holds n (notifying m r) = if m == n then 1 else 0
holds n _ = 0

unfoldable pub waits : ℕ → Phase → ℕ
waits n (waiting m) = if m == n then 1 else 0
waits n _ = 0

unfoldable pub holders : ℕ → List Call → ℕ
unfolding holds
holders n [] = 0
holders n (c ∷ cs) = holds n c.phase + holders n cs

unfoldable pub waiters : ℕ → List Call → ℕ
unfolding waits
waiters n [] = 0
waiters n (c ∷ cs) = waits n c.phase + waiters n cs

-- A notifier that is not new and that nobody is going to fire.
pub record IsStranded (n : ℕ) (s : System) : Type 0 where
  pub old : n < s.pool.fresh
  pub nobody : holders n s.calls ≡ 0

-- One if the event is the drop of a future.
abbrev drop_of : Event → ℕ
drop_of is_dropped = 1
drop_of _ = 0

abbrev dropped : {s u : System} → Step s u → ℕ
dropped (acts e before after c eq eu) = drop_of e
dropped _ = 0

-- How many futures were dropped on the way.
unfoldable pub drops : {s u : System} → Reach s u → ℕ
drops Reach.here = 0
drops (next r st) = drops r + dropped st

holds-wake_phase : (n : ℕ) (o : Option ℕ) (ph : Phase) → holds n (wake_phase o ph) ≡ holds n ph
unfolding holds wake_phase
holds-wake_phase n o ph = ground arith

-- Whether a notification is of this notifier.
unfoldable pub fires : ℕ → Option ℕ → ℕ
fires n none = 0
fires n (some m) = if m == n then 1 else 0

-- A notification of another notifier leaves the waiters alone.
waits-wake_phase :
    (n : ℕ) (o : Option ℕ) (ph : Phase) → fires n o ≡ 0 → waits n (wake_phase o ph) ≡ waits n ph
unfolding waits wake_phase fires
waits-wake_phase n o ph h = ground arith

-- What a step of a call that does not hold the notifier keeps.
record Keeps (n lost : ℕ) (pool : Pool) (ph : Phase) (after : (Pool × Phase) × Option ℕ)
    : Type 0 where
  fresh : n < after.0.0.fresh
  holding : holds n after.0.1 ≡ 0
  quiet : fires n after.1 ≡ 0
  keeps_waiting : waits n ph ≤ waits n after.0.1 + lost

go_on-Keeps :
    (n addr : ℕ) (pool : Pool) (ph : Phase)
    → n < pool.fresh
    → holds n ph ≡ 0
    → Keeps n 0 pool ph (go_on addr pool ph)
unfolding go_on holds waits fires
go_on-Keeps n addr pool looking h e = record {
  fresh = h;
  holding = ground arith;
  quiet = refl;
  keeps_waiting = omega arith;
}
go_on-Keeps n addr pool claiming h e = record {
  fresh = ground arith;
  holding = ground arith;
  quiet = refl;
  keeps_waiting = omega arith;
}
go_on-Keeps n addr pool joining h e = record {
  fresh = ground arith;
  holding = ground arith;
  quiet = refl;
  keeps_waiting = omega arith;
}
go_on-Keeps n addr pool (registering m) h e = record {
  fresh = h;
  holding = e;
  quiet = refl;
  keeps_waiting = omega arith;
}
go_on-Keeps n addr pool (checking m) h e = record {
  fresh = h;
  holding = ground arith;
  quiet = refl;
  keeps_waiting = omega arith;
}
go_on-Keeps n addr pool (opening m) h e = record {
  fresh = h;
  holding = e;
  quiet = refl;
  keeps_waiting = omega arith;
}
go_on-Keeps n addr pool (removing m r) h e = record {
  fresh = h;
  holding = e;
  quiet = refl;
  keeps_waiting = omega arith;
}
go_on-Keeps n addr pool (unregistering m r) h e = record {
  fresh = h;
  holding = e;
  quiet = refl;
  keeps_waiting = omega arith;
}
go_on-Keeps n addr pool (notifying m r) h e = record {
  fresh = h;
  holding = refl;
  quiet = e;
  keeps_waiting = omega arith;
}
go_on-Keeps n addr pool (joined m) h e = record {
  fresh = h;
  holding = ground arith;
  quiet = refl;
  keeps_waiting = omega arith;
}
go_on-Keeps n addr pool (subscribing m) h e = record {
  fresh = h;
  holding = refl;
  quiet = refl;
  keeps_waiting = omega arith;
}
go_on-Keeps n addr pool (waiting m) h e = record {
  fresh = h;
  holding = refl;
  quiet = refl;
  keeps_waiting = omega arith;
}
go_on-Keeps n addr pool (returned r) h e = record {
  fresh = h;
  holding = refl;
  quiet = refl;
  keeps_waiting = omega arith;
}

end_open-Keeps :
    (e : Event) (n addr : ℕ) (pool : Pool) (ph : Phase)
    → n < pool.fresh
    → holds n ph ≡ 0
    → Keeps n (drop_of e) pool ph (end_open e addr pool ph, none)
unfolding end_open holds waits fires
end_open-Keeps e n addr pool ph h eq = record {
  fresh = ground arith;
  holding = ground arith;
  quiet = refl;
  keeps_waiting = ground arith;
}

advance-Keeps :
    (e : Event) (n addr : ℕ) (pool : Pool) (ph : Phase)
    → n < pool.fresh
    → holds n ph ≡ 0
    → Keeps n (drop_of e) pool ph (advance e addr pool ph)
unfolding advance
advance-Keeps goes_on n addr pool ph h eq = go_on-Keeps n addr pool ph h eq
advance-Keeps is_dropped n addr pool ph h eq = end_open-Keeps is_dropped n addr pool ph h eq
advance-Keeps fails n addr pool ph h eq = end_open-Keeps fails n addr pool ph h eq
advance-Keeps (opens ep) n addr pool ph h eq = end_open-Keeps (opens ep) n addr pool ph h eq

holders-append : (n : ℕ) (cs ds : List Call) → holders n (cs ++ ds) ≡ holders n cs + holders n ds
unfolding holders
holders-append n [] ds = omega arith
holders-append n (c ∷ cs) ds = omega (arith, holders-append n cs ds)

waiters-append : (n : ℕ) (cs ds : List Call) → waiters n (cs ++ ds) ≡ waiters n cs + waiters n ds
unfolding waiters
waiters-append n [] ds = omega arith
waiters-append n (c ∷ cs) ds = omega (arith, waiters-append n cs ds)

holders-wake : (n : ℕ) (o : Option ℕ) (cs : List Call) → holders n (map (wake o) cs) ≡ holders n cs
unfolding holders wake
holders-wake n o [] = refl
holders-wake n o (c ∷ cs) = omega (arith, holds-wake_phase n o c.phase, holders-wake n o cs)

waiters-wake :
    (n : ℕ) (o : Option ℕ) (cs : List Call)
    → fires n o ≡ 0
    → waiters n (map (wake o) cs) ≡ waiters n cs
unfolding waiters wake
waiters-wake n o [] h = refl
waiters-wake n o (c ∷ cs) h = omega (arith, waits-wake_phase n o c.phase h, waiters-wake n o cs h)

Step-IsStranded :
    {s u : System} (n : ℕ) (st : Step s u)
    → IsStranded n s
    → IsStranded n u × (waiters n s.calls ≤ waiters n u.calls + dropped st)
unfolding holders waiters holds waits juicity_rs.Server.Pool.remove
Step-IsStranded n (arrives a e) h =
    rw e (record { old = h.old; nobody = omega (arith, h.nobody) }, omega arith)
Step-IsStranded n (evicts a e) h = rw e (record { old = h.old; nobody = h.nobody }, omega arith)
Step-IsStranded {s} n (acts e before after c eq eu) h =
    let r = advance e c.addr s.pool c.phase in
    let hold : holders n s.calls ≡ holders n before + (holds n c.phase + holders n after) =
      ap (holders n) eq ∙ holders-append n before (c ∷ after) in
    let wait : waiters n s.calls ≡ waiters n before + (waits n c.phase + waiters n after) =
      ap (waiters n) eq ∙ waiters-append n before (c ∷ after) in
    let k = advance-Keeps e n c.addr s.pool c.phase h.old (omega (arith, hold, h.nobody)) in
    let here = (record c { phase = r.0.1 }) ∷ map (wake r.1) after in
    rw eu (
      record {
        old = k.fresh;
        nobody = omega (
          arith,
          hold,
          h.nobody,
          k.holding,
          holders-append n (map (wake r.1) before) here,
          holders-wake n r.1 before,
          holders-wake n r.1 after,
        );
      },
      omega (
        arith,
        wait,
        k.keeps_waiting,
        waiters-append n (map (wake r.1) before) here,
        waiters-wake n r.1 before k.quiet,
        waiters-wake n r.1 after k.quiet,
      ),
    )

-- Once a notifier exists and no call is going to fire it, this stays so, and the calls that wait on
-- it wait on: whatever callers, creations, cancellations and evictions follow, their number falls at
-- most by the number of futures that are dropped.
pub Reach-IsStranded :
    {s u : System} (n : ℕ) (r : Reach s u)
    → IsStranded n s
    → IsStranded n u × (waiters n s.calls ≤ waiters n u.calls + drops r)
unfolding drops
Reach-IsStranded n Reach.here h = (h, omega arith)
Reach-IsStranded n (next r st) h =
    let (v, w) = Reach-IsStranded n r h in
    let (v', w') = Step-IsStranded n st v in (v', omega (arith, w, w'))
