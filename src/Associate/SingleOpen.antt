-- ===== src/Associate/SingleOpen.antt =====
-- client/src/local.rs: who opens a stream for a source.
use native.Mathlib.Decide.{ℕ_discrete}
use juicity_rs.Base.{
  ℕ, ◌+◌, ◌≡◌, refl, ap, ◌∙◌, List, [], ◌∷◌, ◌++◌, false, not, contains, if◌then◌else◌, ◌==◌, find,
  put, retain, arith, Bool-cases, Option-cases, inl, inr,
}
use juicity_rs.Socks.{UdpOutboundDatagram}
use juicity_rs.Associate.{
  Opener, Associate, remove_session_if_match, spawn_udp_assoc_session, is_live, enqueue,
  forward_datagram, receive, insert_session, Step, receives, opens, open_fails, drops_guard, writes,
  ends, removes, cleans, clears, Reach, here, next, start,
}

-- How many tasks open a stream for a source, or are about to drop their guard.
unfoldable pub openers_of : ℕ → List Opener → ℕ
openers_of source [] = 0
openers_of source (o ∷ os) = (if o.source == source then 1 else 0) + openers_of source os

unfoldable pub claimed : ℕ → List ℕ → ℕ
claimed source opening = if contains source opening then 1 else 0

openers_of-append :
    (source : ℕ) (os ps : List Opener)
    → openers_of source (os ++ ps) ≡ openers_of source os + openers_of source ps
unfolding openers_of
openers_of-append source [] ps = omega arith
openers_of-append source (o ∷ os) ps = omega (arith, openers_of-append source os ps)

contains-dropped :
    (source other : ℕ) (opening : List ℕ)
    → contains other (retain (λ a. not (a == source)) opening)
      ≡ (if source == other then false else contains other opening)
unfolding retain
contains-dropped source other [] = ground arith
contains-dropped source other (a ∷ opening) = ground (arith, contains-dropped source other opening)

abbrev IsSingle : Associate → Type 0
IsSingle s = (source : ℕ) → openers_of source s.openers ≡ claimed source s.opening

spawn-IsSingle :
    (source : ℕ) (d : UdpOutboundDatagram) (s : Associate)
    → IsSingle s
    → IsSingle (spawn_udp_assoc_session source d s)
unfolding spawn_udp_assoc_session openers_of claimed
spawn-IsSingle source d s h other = elim (Bool-cases (contains source s.opening)) [
  | inl e ↦ rw (spawn_udp_assoc_session, e) (h other)
  | inr e ↦ rw (spawn_udp_assoc_session, e) (ground (arith, h other))
]

remove-IsSingle :
    (source id : ℕ) (s : Associate) → IsSingle s → IsSingle (remove_session_if_match source id s)
unfolding remove_session_if_match
remove-IsSingle source id s h other = ground (arith, h other)

receive-IsSingle :
    (now source : ℕ) (d : UdpOutboundDatagram) (s : Associate)
    → IsSingle s
    → IsSingle (receive now source d s)
unfolding receive forward_datagram
receive-IsSingle now source d s h =
    let t : Associate = record s { received = s.received ++ ((source, d) ∷ []) } in
    elim (Option-cases (find ℕ_discrete source s.sessions)) [
      | inl e ↦ rw (receive, forward_datagram, e) (spawn-IsSingle source d t h)
      | inr (session, e) ↦
          let touched : Associate = record t {
            sessions =
                put ℕ_discrete source (record session { last_used_epoch_ms = now }) s.sessions;
          } in
          elim (Bool-cases (is_live source session.id s.streams)) [
            | inl f ↦ rw (receive, forward_datagram, e, f) h
            | inr f ↦
                rw (receive, forward_datagram, e, f)
                  (spawn-IsSingle source d (remove_session_if_match source session.id touched)
                    (remove-IsSingle source session.id touched h))
          ]
    ]

-- An opener that goes on counts as before.
same_openers :
    (source : ℕ) (before after all : List Opener) (o : Opener)
    → all ≡ before ++ (o ∷ after)
    → openers_of source (before ++ ((record o { connecting = false }) ∷ after))
      ≡ openers_of source all
unfolding openers_of
same_openers source before after all o e = omega (
  arith,
  ap (openers_of source) e,
  openers_of-append source before (o ∷ after),
  openers_of-append source before ((record o { connecting = false }) ∷ after),
)

Step-IsSingle : {s u : Associate} → Step s u → IsSingle s → IsSingle u
unfolding insert_session juicity_rs.Associate.cleanup claimed openers_of
Step-IsSingle {s} (receives now source d e) h = rw e (receive-IsSingle now source d s h)
Step-IsSingle {s} (opens now before after o eo connecting e) h =
    rw e (λ source. same_openers source before after s.openers o eo ∙ h source)
Step-IsSingle {s} (open_fails before after o eo connecting e) h =
    rw e (λ source. same_openers source before after s.openers o eo ∙ h source)
Step-IsSingle {s} (drops_guard before after o eo e) h = rw e (λ source. ground (
  arith,
  h source,
  ap (openers_of source) eo,
  openers_of-append source before (o ∷ after),
  openers_of-append source before after,
  contains-dropped o.source source s.opening,
))
Step-IsSingle (writes before after st d queue es eq e) h = rw e h
Step-IsSingle (ends before after st es e) h = rw e h
Step-IsSingle {s} (removes source id e) h = rw e (remove-IsSingle source id s h)
Step-IsSingle (cleans now e) h = rw e h
Step-IsSingle (clears e) h = rw e h

-- However datagrams, opened and failed streams and dropped guards interleave, a source has one task
-- that opens a stream for it if it is in `opening`, and none else: no second open starts while one
-- is in progress.
pub Reach-openers_of :
    {s : Associate}
    → Reach start s
    → (source : ℕ) → openers_of source s.openers ≡ claimed source s.opening
unfolding openers_of claimed
Reach-openers_of here source = refl
Reach-openers_of (next r st) source = Step-IsSingle st (Reach-openers_of r) source
