-- ===== src/Tests/Reconnect.antt =====
-- The theorems on the shared connection at concrete runs.
use juicity_rs.Base.{
  ◌≡◌, ℕ, ◌≤◌, refl, [], ◌∷◌, none, some, true, ◌⊎◌, inl, inr, ◌==◌, if◌then◌else◌,
}
use juicity_rs.Reconnect.{
  Task, System, Reach, here, next, calls, acts, start, advance, goes_on, is_dropped, looking,
  deciding, clearing, clearing_auth, dialing, dropped, try_addresses,
}
use juicity_rs.Reconnect.SingleFlight.{leaders, flights, Reach-leaders-le-flights}
use juicity_rs.Reconnect.Abandoned.{IsAbandoned, Reach-IsAbandoned}

abbrev caller : Task
caller = record { record_failure = true; phase = looking }

abbrev dialing_system : System
dialing_system = record {
  client = record start.client {
    reconnect = record start.client.reconnect {
      in_flight = true;
      record_failure = true;
      done = some 7;
    };
  };
  tasks = record caller { phase = dialing 7 } ∷ [];
}

abbrev dials : Reach start dialing_system
unfolding advance
dials =
    next
      (next
        (next (next (next here (calls true refl)) (acts (goes_on 0 0) [] [] caller refl refl))
          (acts (goes_on 0 7) [] [] (record caller { phase = deciding }) refl refl))
        (acts (goes_on 0 0) [] [] (record caller { phase = clearing 7 }) refl refl))
      (acts (goes_on 0 0) [] [] (record caller { phase = clearing_auth 7 }) refl refl)

Reach-leaders-le-flights_example : leaders dialing_system.tasks ≤ flights dialing_system.client
Reach-leaders-le-flights_example = Reach-leaders-le-flights dials

-- The future is dropped while another task holds the lock.
abbrev abandoned_system : System
abandoned_system = record dialing_system { tasks = record caller { phase = dropped } ∷ [] }

abbrev abandons : Reach start abandoned_system
unfolding advance
abandons = next dials (acts (is_dropped true) [] [] (record caller { phase = dialing 7 }) refl refl)

abandoned_system-IsAbandoned : IsAbandoned abandoned_system
unfolding leaders
abandoned_system-IsAbandoned = record { in_flight = refl; nobody = refl; connection = refl }

abbrev later_system : System
later_system = record abandoned_system {
  tasks = record caller { phase = looking } ∷ abandoned_system.tasks;
}

Reach-IsAbandoned_example : IsAbandoned later_system
Reach-IsAbandoned_example =
    Reach-IsAbandoned (next here (calls true refl)) abandoned_system-IsAbandoned

-- The first address fails, and the others answer.
abbrev connect : ℕ → ℕ ⊎ ℕ
connect a = if a == 1 then inr 0 else inl 4

second_address : try_addresses connect none (1 ∷ 2 ∷ 3 ∷ []) ≡ inl 4
unfolding try_addresses
second_address = refl
