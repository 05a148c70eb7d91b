-- ===== src/Server/Dns/Wakeups.antt =====
-- server/src/server.rs: who waits for a lookup, and who wakes it.
use native.Mathlib.Decide.{ℕ_discrete}
use juicity_rs.Base.{
  ℕ, ◌+◌, ◌≤◌, ◌<◌, ◌≡◌, refl, ap, ◌∙◌, List, [], ◌∷◌, ◌++◌, Option, none, some, map, arith, ◌==◌,
  if◌then◌else◌, find, Option-cases, inl, inr,
}
use juicity_rs.Server.Dns.{
  Dns, Phase, Call, Event, goes_on, resolves, fails, expires, cached, wait_or_lead, enter, store,
  go_on, end_wait, advance, wake, wake_phase, System, Step, arrives, acts, Reach, here, next, start,
  calling, entering, looking_up, waiting, storing, removing, notifying, returned,
}
use juicity_rs.Server.Dns.SingleFlight.{
  resolving_with, resolvers, names, registered, IsAgreed, Reach-IsAgreed,
}

-- Whether a call is still to fire a notifier.
unfoldable pub holds : ℕ → Phase → ℕ
holds n (looking_up m) = if m == n then 1 else 0
holds n (storing m a) = if m == n then 1 else 0
holds n (removing m r) = if m == n then 1 else 0
holds n (notifying m r) = if m == n then 1 else 0
holds n _ = 0

unfoldable pub waits : ℕ → Phase → ℕ
waits n (waiting m) = if m == n then 1 else 0
waits n _ = 0

unfoldable pub holders : ℕ → List Call → ℕ
unfolding holds
holders n [] = 0
holders n (c ∷ cs) = holds n c.phase + holders n cs

unfoldable pub waiters : ℕ → List Call → ℕ
unfolding waits
waiters n [] = 0
waiters n (c ∷ cs) = waits n c.phase + waiters n cs

-- How many of some waiters are left after a notification.
unfoldable left : ℕ → Option ℕ → ℕ → ℕ
left n none w = w
left n (some m) w = if m == n then 0 else w

resolving_with-le-holds : (n : ℕ) (ph : Phase) → resolving_with n ph ≤ holds n ph
unfolding resolving_with holds
resolving_with-le-holds n ph = ground arith

resolvers-le-holders : (k n : ℕ) (cs : List Call) → resolvers k n cs ≤ holders n cs
unfolding resolvers holders resolving_with holds
resolvers-le-holders k n [] = omega arith
resolvers-le-holders k n (c ∷ cs) =
    ground (arith, resolvers-le-holders k n cs, resolving_with-le-holds n c.phase)

holders-append : (n : ℕ) (cs ds : List Call) → holders n (cs ++ ds) ≡ holders n cs + holders n ds
unfolding holders
holders-append n [] ds = omega arith
holders-append n (c ∷ cs) ds = omega (arith, holders-append n cs ds)

waiters-append : (n : ℕ) (cs ds : List Call) → waiters n (cs ++ ds) ≡ waiters n cs + waiters n ds
unfolding waiters
waiters-append n [] ds = omega arith
waiters-append n (c ∷ cs) ds = omega (arith, waiters-append n cs ds)

holds-wake_phase : (n : ℕ) (o : Option ℕ) (ph : Phase) → holds n (wake_phase o ph) ≡ holds n ph
unfolding holds wake_phase
holds-wake_phase n o ph = ground arith

holders-wake : (n : ℕ) (o : Option ℕ) (cs : List Call) → holders n (map (wake o) cs) ≡ holders n cs
unfolding holders wake
holders-wake n o [] = refl
holders-wake n o (c ∷ cs) = ground (arith, holds-wake_phase n o c.phase, holders-wake n o cs)

waits-wake_phase :
    (n : ℕ) (o : Option ℕ) (ph : Phase) → waits n (wake_phase o ph) ≡ left n o (waits n ph)
unfolding waits wake_phase left
waits-wake_phase n o ph = ground arith

left-add : (n : ℕ) (o : Option ℕ) (v w : ℕ) → left n o (v + w) ≡ left n o v + left n o w
unfolding left
left-add n none v w = refl
left-add n (some m) v w = ground arith

waiters-wake :
    (n : ℕ) (o : Option ℕ) (cs : List Call) → waiters n (map (wake o) cs) ≡ left n o (waiters n cs)
unfolding waiters wake left
waiters-wake n none [] = refl
waiters-wake n (some m) [] = ground arith
waiters-wake n o (c ∷ cs) = omega (
  arith,
  waits-wake_phase n o c.phase,
  waiters-wake n o cs,
  left-add n o (waits n c.phase) (waiters n cs),
)

-- Who waits on the notifier has a call to fire it, one call and the rest taken together.
abbrev Covers : ℕ → ℕ → ℕ → Phase → Type 0
Covers n w held ph = 0 < waits n ph + w → 0 < holds n ph + held

enter-Covers :
    (now key n w held : ℕ) (dns : Dns)
    → registered key n dns ≤ held
    → (0 < w → 0 < held)
    → Covers n w held (enter now key dns).1
unfolding enter wait_or_lead registered names waits holds
enter-Covers now key n w held dns named h = elim (Option-cases (cached now key dns.cache)) [
  | inl e ↦ elim (Option-cases (find ℕ_discrete key dns.resolving)) [
    | inl f ↦ ground arith
    | inr (m, f) ↦ ground arith
  ]
  | inr (a, e) ↦ ground arith
]

go_on-Covers :
    (now key : ℕ) (literal : Option ℕ) (n w held : ℕ) (dns : Dns) (ph : Phase)
    → registered key n dns ≤ holds n ph + held
    → Covers n w held ph
    → Covers n (left n (go_on now key literal dns ph).1 w) held (go_on now key literal dns ph).0.1
unfolding go_on waits holds left store
go_on-Covers now key (some ip) n w held dns calling named h = h
go_on-Covers now key none n w held dns calling named h = h
go_on-Covers now key literal n w held dns entering named h =
    enter-Covers now key n w held dns (omega (arith, named))
      (λ p. omega (arith, h (omega (arith, p))))
go_on-Covers now key literal n w held dns (looking_up m) named h = h
go_on-Covers now key literal n w held dns (waiting m) named h = h
go_on-Covers now key literal n w held dns (storing m a) named h = h
go_on-Covers now key literal n w held dns (removing m r) named h = h
go_on-Covers now key literal n w held dns (notifying m r) named h = ground arith
go_on-Covers now key literal n w held dns (returned r) named h = h

end_wait-Covers :
    (e : Event) (n w held : ℕ) (ph : Phase) → Covers n w held ph → Covers n w held (end_wait e ph)
unfolding end_wait waits holds
end_wait-Covers e n w held ph h = ground arith

advance-Covers :
    (e : Event) (key : ℕ) (literal : Option ℕ) (n w held : ℕ) (dns : Dns) (ph : Phase)
    → registered key n dns ≤ holds n ph + held
    → Covers n w held ph
    → Covers n (left n (advance e key literal dns ph).1 w) held (advance e key literal dns ph).0.1
unfolding advance left
advance-Covers (goes_on now) key literal n w held dns ph named h =
    go_on-Covers now key literal n w held dns ph named h
advance-Covers (resolves a) key literal n w held dns ph named h =
    end_wait-Covers (resolves a) n w held ph h
advance-Covers fails key literal n w held dns ph named h = end_wait-Covers fails n w held ph h
advance-Covers expires key literal n w held dns ph named h = end_wait-Covers expires n w held ph h

abbrev IsCovered : System → Type 0
IsCovered s = (n : ℕ) → 0 < waiters n s.calls → 0 < holders n s.calls

Step-IsCovered : {s u : System} → Step s u → IsAgreed s → IsCovered s → IsCovered u
unfolding waiters holders waits holds
Step-IsCovered (arrives key literal e) agreed h n =
    rw e (λ p. omega (arith, h n (omega (arith, p))))
Step-IsCovered {s} (acts e before after c eq eu) agreed h n =
    let r = advance e c.key c.literal s.dns c.phase in
    let w = waiters n before + waiters n after in
    let held = holders n before + holders n after in
    let waiting_all : waiters n s.calls ≡ waits n c.phase + w =
      omega (arith, ap (waiters n) eq ∙ waiters-append n before (c ∷ after)) in
    let holding_all : holders n s.calls ≡ holds n c.phase + held =
      omega (arith, ap (holders n) eq ∙ holders-append n before (c ∷ after)) in
    let covers : Covers n w held c.phase =
      λ p. omega (arith, holding_all, h n (omega (arith, waiting_all, p))) in
    let named : registered c.key n s.dns ≤ holds n c.phase + held =
      omega (arith, agreed c.key n, holding_all, resolvers-le-holders c.key n s.calls) in
    rw eu (λ p. omega (
      arith,
      advance-Covers e c.key c.literal n w held s.dns c.phase named covers (
          omega (
            arith,
            p,
            waiters-append n (map (wake r.1) before)
                ((record c { phase = r.0.1 }) ∷ map (wake r.1) after),
            waiters-wake n r.1 before,
            waiters-wake n r.1 after,
            left-add n r.1 (waiters n before) (waiters n after),
          )),
      holders-append n (map (wake r.1) before)
          ((record c { phase = r.0.1 }) ∷ map (wake r.1) after),
      holders-wake n r.1 before,
      holders-wake n r.1 after,
    ))

-- However calls, failures, expiries and dropped futures interleave, a call that waits on a
-- notifier has another call that is still to fire it: nobody who waits for a lookup is stranded.
pub Reach-IsCovered :
    {s : System} → Reach start s → (n : ℕ) → 0 < waiters n s.calls → 0 < holders n s.calls
unfolding waiters
Reach-IsCovered here n p = omega (arith, p)
Reach-IsCovered (next r st) n p = Step-IsCovered st (Reach-IsAgreed r) (Reach-IsCovered r) n p
