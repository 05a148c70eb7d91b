-- ===== src/Server/InFlight/Once.antt =====
-- server/src/inflight.rs: an authentication is consumed at most once.
use juicity_rs.Base.{
  ℕ, ◌+◌, ◌≤◌, ◌≡◌, refl, ap, ◌∙◌, List, [], ◌∷◌, ◌++◌, some, Bytes, arith, map, Option-cases, inl,
  inr, Bytes-discrete, find, put, del, Bool, retain,
}
use mathlib.Core.Logic.{ite}
use juicity_rs.Protocol.Wire.{UnderlayAuth}
use juicity_rs.Server.InFlight.{
  InFlight, store, cleanup, consume, register, advance, advance_from, Packet, Phase, fresh_auth,
  wake, with_phase, looking, registering, claimed, parked, finished, System, Step, Reach, arrives,
  stores_auth, cleans, advances, here, next, start,
}

-- One if the packet got an authentication.
unfoldable pub took : Phase → ℕ
took (finished (some a)) = 1
took _ = 0

-- One where the salts are the same.
abbrev same : Bytes → Bytes → ℕ
same salt key = ite (Bytes-discrete key salt) 1 0

abbrev took_for : Bytes → Bytes → Phase → ℕ
took_for salt key ph = ite (Bytes-discrete key salt) (took ph) 0

-- The packets with a salt that got an authentication.
unfoldable pub taken : Bytes → List Packet → ℕ
unfolding took
taken salt [] = 0
taken salt (p ∷ ps) = took_for salt p.key p.phase + taken salt ps

-- The entries of a salt.
unfoldable pub held : Bytes → List (Bytes × (UnderlayAuth × ℕ)) → ℕ
held salt [] = 0
held salt ((key, v) ∷ m) = same salt key + held salt m

-- How often a salt is in a list.
unfoldable pub count : Bytes → List Bytes → ℕ
count salt [] = 0
count salt (key ∷ keys) = same salt key + count salt keys

took-wake : (ids : List ℕ) (p : Packet) → took (wake ids p).phase ≡ took p.phase
unfolding took wake
took-wake ids p = ground arith

module _ (salt : Bytes) where
  taken-wake : (ids : List ℕ) (ps : List Packet) → taken salt (map (wake ids) ps) ≡ taken salt ps
  unfolding taken wake
  taken-wake ids [] = refl
  taken-wake ids (p ∷ ps) = ground (arith, took-wake ids p, taken-wake ids ps)

  taken-append : (ps qs : List Packet) → taken salt (ps ++ qs) ≡ taken salt ps + taken salt qs
  unfolding taken
  taken-append [] qs = omega arith
  taken-append (p ∷ ps) qs = omega (arith, taken-append ps qs)

  held-put :
      (key : Bytes) (v : UnderlayAuth × ℕ) (m : List (Bytes × (UnderlayAuth × ℕ)))
      → held salt (put Bytes-discrete key v m) ≤ held salt m + same salt key
  unfolding held put
  held-put key v [] = omega arith
  held-put key v ((j, w) ∷ m) = ground (arith, held-put key v m)

  held-retain :
      (p : Bytes × (UnderlayAuth × ℕ) → Bool) (m : List (Bytes × (UnderlayAuth × ℕ)))
      → held salt (retain p m) ≤ held salt m
  unfolding held retain
  held-retain p [] = omega arith
  held-retain p ((j, w) ∷ m) = ground (arith, held-retain p m)

  held-del :
      (key : Bytes) (m : List (Bytes × (UnderlayAuth × ℕ)))
      → held salt (del Bytes-discrete key m) ≤ held salt m
  unfolding held del
  held-del key [] = omega arith
  held-del key ((j, w) ∷ m) = ground (arith, held-del key m)

  held-del_present :
      (key : Bytes) (v : UnderlayAuth × ℕ) (m : List (Bytes × (UnderlayAuth × ℕ)))
      → find Bytes-discrete key m ≡ some v
      → held salt (del Bytes-discrete key m) + same salt key ≤ held salt m
  unfolding held del find
  held-del_present key v [] h = ground arith
  held-del_present key v ((j, w) ∷ m) h =
      ground (arith, held-del_present key v m, held-del key m, ap (same salt))

  held-store :
      (now : ℕ) (key : Bytes) (a : UnderlayAuth) (t : InFlight)
      → held salt (store now key a t).0.auth ≤ held salt t.auth + same salt key
  unfolding store
  held-store now key a t =
      let kept = retain (fresh_auth t.ttl now) t.auth in
      let le = held-retain (fresh_auth t.ttl now) t.auth in
      let put_le = held-put key (a, now) t.auth in
      let put_kept_le = held-put key (a, now) kept in ground arith

  auth-register :
      (now id : ℕ) (key : Bytes) (t : InFlight) → (register now id key t).0.0.auth ≡ t.auth
  unfolding register
  auth-register now id key t = ground arith

  took-register : (now id : ℕ) (key : Bytes) (t : InFlight) → took (register now id key t).0.1 ≡ 0
  unfolding register took
  took-register now id key t = ground arith

  consume_once :
      (key : Bytes) (a : UnderlayAuth) (at : ℕ) (t : InFlight)
      → took_for salt key (consume key a at t).1 + held salt (consume key a at t).0.auth
        ≤ held salt t.auth
  unfolding consume took
  consume_once key a at t = elim (Option-cases (find Bytes-discrete key t.auth)) [
    | inl e ↦ ground arith
    | inr (w, e) ↦ ground (arith, held-del_present key w t.auth e)
  ]

  advance_once :
      (now id : ℕ) (p : Packet) (t : InFlight) (ph : Phase)
      → took_for salt p.key (advance_from now id p t ph).0.1
          + held salt (advance_from now id p t ph).0.0.auth
        ≤ took_for salt p.key ph + held salt t.auth
  unfolding advance_from took
  advance_once now id p t looking = ground arith
  advance_once now id p t registering =
      ground (arith, took-register now id p.key t, ap (held salt) (auth-register now id p.key t))
  advance_once now id p t (claimed a at) = ground (arith, consume_once p.key a at t)
  advance_once now id p t (parked n) = omega arith
  advance_once now id p t (finished r) = omega arith

  abbrev Accounted : System → Type 0
  Accounted s = taken salt s.packets + held salt s.table.auth ≤ count salt s.stores

  Step-Accounted : {s u : System} → Step s u → Accounted s → Accounted u
  unfolding advance taken cleanup count
  Step-Accounted (arrives p h e) b = rw (e, h) (ground arith)
  Step-Accounted {s} (stores_auth now key a e) b = rw e (
      omega (arith, held-store now key a s.table, taken-wake (store now key a s.table).1 s.packets))
  Step-Accounted {s} (cleans now e) b = rw e (
      omega (
        arith,
        held-retain (fresh_auth s.table.ttl now) s.table.auth,
        taken-wake (cleanup now s.table).1 s.packets,
      ))
  Step-Accounted {s} (advances now id before after p h e) b =
      let ids = (advance now id p s.table).1 in
      let total : taken salt s.packets
          ≡ taken salt before + (took_for salt p.key p.phase + taken salt after) =
        ap (taken salt) h ∙ taken-append before (p ∷ after) in
      rw e (
        omega (
          arith,
          advance_once now id p s.table p.phase,
          taken-append (map (wake ids) before)
              (with_phase p (advance now id p s.table).0.1 ∷ map (wake ids) after),
          taken-wake ids before,
          taken-wake ids after,
          total,
        ))

-- However packets, stores and cleanups interleave, for every salt: the packets with this salt that
-- were given an authentication and the entries of the salt that are still in the table are together
-- at most as many as the stores under the salt. So a salt that was stored once is accepted once.
pub Reach-taken-le-stores :
    (ttl evict_timeout : ℕ) {s : System}
    → Reach (start ttl evict_timeout) s
    → (salt : Bytes) → taken salt s.packets + held salt s.table.auth ≤ count salt s.stores
unfolding taken held
Reach-taken-le-stores ttl evict_timeout here salt = omega arith
Reach-taken-le-stores ttl evict_timeout (next r st) salt =
    Step-Accounted salt st (Reach-taken-le-stores ttl evict_timeout r salt)
