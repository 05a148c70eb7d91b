-- ===== src/Tests/Dns.antt =====
-- The DNS cache at a concrete run: the first call looks a name up, the second waits for it.
use native.Mathlib.Decide.{ℕ_discrete}
use juicity_rs.Base.{ℕ, ◌+◌, ◌<◌, ◌≤◌, ◌≡◌, refl, List, [], ◌∷◌, ◌++◌, none, some, length, arith}
use juicity_rs.Server.Dns.{
  swap_remove, max_udp_dns_cache, Phase, Call, System, Reach, here, next, arrives, acts, start,
  advance, wake, goes_on, resolves, calling, entering, looking_up, waiting, storing, removing,
}
use juicity_rs.Server.Dns.Capacity.{Reach-cache-le}
use juicity_rs.Server.Dns.SingleFlight.{resolvers, registered, Reach-IsAgreed}
use juicity_rs.Server.Dns.Wakeups.{holders, waiters, Reach-IsCovered}

abbrev call : Phase → Call
call phase = record { key = 5; literal = none; phase = phase }

-- The first call has stored the address 9 and is about to drop its guard.
abbrev stored_system : System
stored_system = record {
  dns = record { cache = (5, (9, 40)) ∷ []; resolving = (5, 0) ∷ []; fresh = 1 };
  calls = call (waiting 0) ∷ call (removing 0 (some 9)) ∷ [];
}

abbrev stored : Reach start stored_system
unfolding advance wake ℕ_discrete juicity_rs.Base.find juicity_rs.Base.put juicity_rs.Base.del
stored =
    next
      (next
        (next
          (next
            (next
              (next (next (next here (arrives 5 none refl)) (arrives 5 none refl))
                (acts (goes_on 10) (call calling ∷ []) [] (call calling) refl refl))
              (acts (goes_on 11) (call calling ∷ []) [] (call entering) refl refl))
            (acts (goes_on 12) [] (call (looking_up 0) ∷ []) (call calling) refl refl))
          (acts (goes_on 13) [] (call (looking_up 0) ∷ []) (call entering) refl refl))
        (acts (resolves 9) (call (waiting 0) ∷ []) [] (call (looking_up 0)) refl refl))
      (acts (goes_on 40) (call (waiting 0) ∷ []) [] (call (storing 0 9)) refl refl)

Reach-cache-le_example : length stored_system.dns.cache ≤ max_udp_dns_cache
Reach-cache-le_example = Reach-cache-le stored

Reach-IsAgreed_example : resolvers 5 0 stored_system.calls ≡ registered 5 0 stored_system.dns
Reach-IsAgreed_example = Reach-IsAgreed stored 5 0

Reach-IsCovered_example : 0 < holders 0 stored_system.calls
unfolding waiters
Reach-IsCovered_example = Reach-IsCovered stored 0 (omega arith)

-- The removal of the oldest name, 1, puts the newest, 3, where the next removal takes it first.
swapped :
    swap_remove 1 ((1, (8, 0)) ∷ (2, (8, 1)) ∷ (3, (8, 2)) ∷ []) ≡ (3, (8, 2)) ∷ (2, (8, 1)) ∷ []
unfolding swap_remove
swapped = refl
