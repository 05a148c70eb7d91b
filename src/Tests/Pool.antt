-- ===== src/Tests/Pool.antt =====
-- The endpoint pool at a concrete run.
use native.Mathlib.Decide.{ℕ_discrete}
use juicity_rs.Base.{ℕ, ◌+◌, ◌≡◌, ◌≤◌, refl, List, [], ◌∷◌, ◌++◌, none, some, true, false, arith}
use juicity_rs.Server.Pool.{
  Phase, Call, System, Reach, here, next, arrives, acts, start, advance, wake, forget, goes_on,
  opens, looking, claiming, joining, registering, checking, opening, removing, unregistering,
  notifying, joined, subscribing, waiting, returned,
}
use juicity_rs.Server.Pool.SingleCreator.{owners, claims, Reach-owners-le-claims}
use juicity_rs.Server.Pool.Stranded.{holders, waiters, IsStranded, drops, Reach-IsStranded}

abbrev call : Phase → Call
call phase = record { addr = 1; phase = phase }

-- The second call has looked at `creating`; before it subscribes, the first creates the endpoint
-- and notifies. The second waits although the endpoint is there.
abbrev late_system : System
late_system = record {
  pool = record { inner = (1, 7) ∷ []; creating = []; notify_map = []; fresh = 2 };
  calls = call (waiting 0) ∷ call (returned (some (7, true))) ∷ [];
}

abbrev late : Reach start late_system
unfolding advance wake forget ℕ_discrete juicity_rs.Base.find juicity_rs.Base.put
    juicity_rs.Base.del juicity_rs.Base.retain
late =
    next
      (next
        (next
          (next
            (next
              (next
                (next
                  (next
                    (next
                      (next
                        (next
                          (next
                            (next (next (next here (arrives 1 refl)) (arrives 1 refl))
                              (acts goes_on (call looking ∷ []) [] (call looking) refl refl))
                            (acts goes_on (call looking ∷ []) [] (call claiming) refl refl))
                          (acts goes_on (call looking ∷ []) [] (call (registering 0)) refl refl))
                        (acts goes_on (call looking ∷ []) [] (call (checking 0)) refl refl))
                      (acts goes_on [] (call (opening 0) ∷ []) (call looking) refl refl))
                    (acts goes_on [] (call (opening 0) ∷ []) (call claiming) refl refl))
                  (acts goes_on [] (call (opening 0) ∷ []) (call joining) refl refl))
                (acts goes_on [] (call (opening 0) ∷ []) (call (joined 0)) refl refl))
              (acts (opens 7) (call (subscribing 0) ∷ []) [] (call (opening 0)) refl refl))
            (acts goes_on (call (subscribing 0) ∷ []) [] (call (removing 0 (some (7, true)))) refl
              refl))
          (acts goes_on (call (subscribing 0) ∷ []) [] (call (unregistering 0 (some (7, true))))
            refl refl))
        (acts goes_on (call (subscribing 0) ∷ []) [] (call (notifying 0 (some (7, true)))) refl
          refl))
      (acts goes_on [] (call (returned (some (7, true))) ∷ []) (call (subscribing 0)) refl refl)

Reach-owners-le-claims_example : owners 1 late_system.calls ≤ claims 1 late_system.pool
Reach-owners-le-claims_example = Reach-owners-le-claims late 1

late_system-IsStranded : IsStranded 0 late_system
unfolding holders
late_system-IsStranded = record { old = omega arith; nobody = refl }

abbrev later_system : System
later_system = record late_system { calls = call looking ∷ late_system.calls }

abbrev later : Reach late_system later_system
later = next here (arrives 1 refl)

Reach-IsStranded_example :
    IsStranded 0 later_system
    × (waiters 0 late_system.calls ≤ waiters 0 later_system.calls + drops later)
Reach-IsStranded_example = Reach-IsStranded 0 later late_system-IsStranded
