-- ===== src/Server/Dns/SingleFlight.antt =====
-- server/src/server.rs: one lookup at a time for each name.
use native.Mathlib.Decide.{ℕ_discrete}
use juicity_rs.Base.{
  ℕ, ◌+◌, ◌≡◌, refl, ap, ◌∙◌, List, [], ◌∷◌, ◌++◌, Option, none, some, map, arith, ◌==◌,
  if◌then◌else◌, find, find-put, find-del, Option-cases, inl, inr,
}
use juicity_rs.Server.Dns.{
  Dns, Phase, Call, Event, goes_on, resolves, fails, expires, swap_remove, wait_or_lead, enter,
  store, go_on, end_wait, advance, wake, wake_phase, System, Step, arrives, acts, Reach, here, next,
  start, calling, entering, looking_up, waiting, storing, removing, notifying, returned,
}

-- Whether a call resolves its key under a notifier.
unfoldable pub resolving_with : ℕ → Phase → ℕ
resolving_with n (looking_up m) = if m == n then 1 else 0
resolving_with n (storing m a) = if m == n then 1 else 0
resolving_with n (removing m r) = if m == n then 1 else 0
resolving_with n _ = 0

unfoldable pub resolvers : ℕ → ℕ → List Call → ℕ
unfolding resolving_with
resolvers key n [] = 0
resolvers key n (c ∷ cs) =
    (if c.key == key then resolving_with n c.phase else 0) + resolvers key n cs

unfoldable pub names : ℕ → Option ℕ → ℕ
names n none = 0
names n (some m) = if m == n then 1 else 0

-- Whether the shared state names this notifier for the key.
unfoldable pub registered : ℕ → ℕ → Dns → ℕ
unfolding names
registered key n dns = names n (find ℕ_discrete key dns.resolving)

resolving_with-wake_phase :
    (n : ℕ) (o : Option ℕ) (ph : Phase) → resolving_with n (wake_phase o ph) ≡ resolving_with n ph
unfolding resolving_with wake_phase
resolving_with-wake_phase n o ph = ground arith

pub resolvers-wake :
    (key n : ℕ) (o : Option ℕ) (cs : List Call)
    → resolvers key n (map (wake o) cs) ≡ resolvers key n cs
unfolding resolvers wake
resolvers-wake key n o [] = refl
resolvers-wake key n o (c ∷ cs) =
    ground (arith, resolving_with-wake_phase n o c.phase, resolvers-wake key n o cs)

pub resolvers-append :
    (key n : ℕ) (cs ds : List Call)
    → resolvers key n (cs ++ ds) ≡ resolvers key n cs + resolvers key n ds
unfolding resolvers
resolvers-append key n [] ds = omega arith
resolvers-append key n (c ∷ cs) ds = omega (arith, resolvers-append key n cs ds)

-- What one call and the rest make up, before and after a step of that call.
abbrev Agrees : ℕ → ℕ → ℕ → ℕ → Phase → Dns → Type 0
Agrees key k n rest ph dns =
    (if key == k then resolving_with n ph else 0) + rest ≡ registered k n dns

wait_or_lead-Agrees :
    (key k n rest : ℕ) (dns : Dns)
    → rest ≡ registered k n dns
    → Agrees key k n rest (wait_or_lead key dns).1 (wait_or_lead key dns).0
unfolding wait_or_lead registered resolving_with
wait_or_lead-Agrees key k n rest dns h = elim (Option-cases (find ℕ_discrete key dns.resolving)) [
  | inl e ↦ ground (arith, find-put ℕ_discrete key k dns.fresh dns.resolving)
  | inr (m, e) ↦ ground arith
]

enter-Agrees :
    (now key k n rest : ℕ) (dns : Dns)
    → rest ≡ registered k n dns
    → Agrees key k n rest (enter now key dns).1 (enter now key dns).0
unfolding enter registered resolving_with
enter-Agrees now key k n rest dns h =
    ground
      (arith, wait_or_lead-Agrees key k n rest (record dns { cache = swap_remove key dns.cache }) h)

-- A step of a call moves its own lookup and the name of its notifier together.
go_on-Agrees :
    (now key : ℕ) (literal : Option ℕ) (k n : ℕ) (rest : ℕ → ℕ) (dns : Dns) (ph : Phase)
    → ((m : ℕ) → Agrees key k m (rest m) ph dns)
    → Agrees key k n (rest n) (go_on now key literal dns ph).0.1 (go_on now key literal dns ph).0.0
unfolding go_on resolving_with registered names store
go_on-Agrees now key (some ip) k n rest dns calling h = ground (arith, h n)
go_on-Agrees now key none k n rest dns calling h = ground (arith, h n)
go_on-Agrees now key literal k n rest dns entering h =
    let idle : rest n ≡ registered k n dns = ground (arith, h n) in
    enter-Agrees now key k n (rest n) dns idle
go_on-Agrees now key literal k n rest dns (looking_up m) h = h n
go_on-Agrees now key literal k n rest dns (waiting m) h = h n
go_on-Agrees now key literal k n rest dns (storing m a) h = h n
go_on-Agrees now key literal k n rest dns (removing m r) h =
    ground (arith, h n, h m, find-del ℕ_discrete key k dns.resolving)
go_on-Agrees now key literal k n rest dns (notifying m r) h = ground (arith, h n)
go_on-Agrees now key literal k n rest dns (returned r) h = h n

resolving_with-end_wait :
    (e : Event) (n : ℕ) (ph : Phase) → resolving_with n (end_wait e ph) ≡ resolving_with n ph
unfolding resolving_with end_wait
resolving_with-end_wait e n ph = ground arith

advance-Agrees :
    (e : Event) (key : ℕ) (literal : Option ℕ) (k n : ℕ) (rest : ℕ → ℕ) (dns : Dns) (ph : Phase)
    → ((m : ℕ) → Agrees key k m (rest m) ph dns)
    → Agrees key k n (rest n) (advance e key literal dns ph).0.1 (advance e key literal dns ph).0.0
unfolding advance
advance-Agrees (goes_on now) key literal k n rest dns ph h =
    go_on-Agrees now key literal k n rest dns ph h
advance-Agrees (resolves a) key literal k n rest dns ph h =
    rw (resolving_with-end_wait (resolves a) n ph) (h n)
advance-Agrees fails key literal k n rest dns ph h = rw (resolving_with-end_wait fails n ph) (h n)
advance-Agrees expires key literal k n rest dns ph h =
    rw (resolving_with-end_wait expires n ph) (h n)

abbrev pub IsAgreed : System → Type 0
IsAgreed s = (k n : ℕ) → resolvers k n s.calls ≡ registered k n s.dns

Step-IsAgreed : {s u : System} → Step s u → IsAgreed s → IsAgreed u
unfolding resolvers resolving_with
Step-IsAgreed (arrives key literal e) h k n = rw e (ground (arith, h k n))
Step-IsAgreed {s} (acts e before after c eq eu) h k n =
    let r = advance e c.key c.literal s.dns c.phase in
    let rest : ℕ → ℕ = λ m. resolvers k m before + resolvers k m after in
    let split : (m : ℕ) → Agrees c.key k m (rest m) c.phase s.dns =
      λ m. omega (arith, h k m, ap (resolvers k m) eq ∙ resolvers-append k m before (c ∷ after)) in
    rw eu (
      omega (
        arith,
        advance-Agrees e c.key c.literal k n rest s.dns c.phase split,
        resolvers-append k n (map (wake r.1) before)
            ((record c { phase = r.0.1 }) ∷ map (wake r.1) after),
        resolvers-wake k n r.1 before,
        resolvers-wake k n r.1 after,
      ))

-- However calls, failures, expiries and dropped futures interleave, a name has as many calls in
-- its lookup under a notifier as `dns_resolving` names that notifier for it: one if it does, and
-- none else.
pub Reach-IsAgreed :
    {s : System} → Reach start s → (k n : ℕ) → resolvers k n s.calls ≡ registered k n s.dns
unfolding resolvers registered names find
Reach-IsAgreed here k n = refl
Reach-IsAgreed (next r st) k n = Step-IsAgreed st (Reach-IsAgreed r) k n
