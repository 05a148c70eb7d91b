-- ===== src/Tests/Traffic.antt =====
-- Traffic at concrete readings, with speeds in whole bytes.
use juicity_rs.Base.{ℕ, ◌≡◌, refl, ◌+◌, ◌*◌, ◌/◌, List, [], ◌∷◌, none, false, max, ◌==◌, arith}
use juicity_rs.Gui.Traffic.{Floats, TrafficMonitor, no_speed, run}
use juicity_rs.Gui.Traffic.Totals.{Reading, sampled, run-totals}

abbrev whole : Floats
whole = record {
  F64 = ℕ;
  zero = 0;
  per_second = λ bytes since. bytes * 1000000000 / max since 1000000;
  equal = ◌==◌;
  fmax = max;
}

abbrev fresh : TrafficMonitor whole
fresh = record {
  samples = [];
  total_up = 0;
  total_down = 0;
  previous = none;
  pending_up = 0;
  pending_down = 0;
  last_sample = none;
  current = no_speed whole;
  active = false;
  version = 0;
}

abbrev reading : ℕ → ℕ → Reading
reading bytes now = record { up = bytes; down = 2 * bytes; now = now }

abbrev later : List Reading
later = reading 8 500000000 ∷ (reading 20 1500000000 ∷ [])

run-totals_example :
    ((run whole (sampled whole (reading 5 0 ∷ later)) fresh).total_up
        + (run whole (sampled whole (reading 5 0 ∷ later)) fresh).pending_up
      ≡ 15)
    × ((run whole (sampled whole (reading 5 0 ∷ later)) fresh).total_down
          + (run whole (sampled whole (reading 5 0 ∷ later)) fresh).pending_down
        ≡ 30)
run-totals_example =
    run-totals whole (reading 5 0) later fresh refl refl refl refl (omega arith) (omega arith)
      (omega arith)
