-- ===== src/Gui/Traffic/Totals.antt =====
-- gui/src/traffic.rs: the totals count each byte of a running core once.
use juicity_rs.Base.{
  ℕ, ◌≡◌, ◌+◌, ◌-◌, ◌^◌, ◌<◌, ◌≤◌, List, [], ◌∷◌, none, some, Bool-cases, Option-cases, inl, inr,
  arith, leb,
}
use juicity_rs.Gui.Traffic.{
  Floats, TrafficMonitor, accumulate, flush_sample, record_some, record_at, Op, sample, run,
  sample_interval,
}

-- One reading of the counters, at a time.
pub record Reading : Type 0 where
  pub up : ℕ
  pub down : ℕ
  pub now : ℕ

-- Counters of one core never go back.
abbrev pub IsGrowing : ℕ → ℕ → List Reading → Type 0
IsGrowing up down [] = Unit
IsGrowing up down (r ∷ rs) = (up ≤ r.up) × (down ≤ r.down) × IsGrowing r.up r.down rs

abbrev pub last_up : ℕ → List Reading → ℕ
last_up up [] = up
last_up up (r ∷ rs) = last_up r.up rs

abbrev pub last_down : ℕ → List Reading → ℕ
last_down down [] = down
last_down down (r ∷ rs) = last_down r.down rs

last_up-le : (up down : ℕ) (rs : List Reading) → IsGrowing up down rs → up ≤ last_up up rs
last_up-le up down [] g = omega arith
last_up-le up down (r ∷ rs) (u, d, g) = omega (arith, last_up-le r.up r.down rs g)

last_down-le : (up down : ℕ) (rs : List Reading) → IsGrowing up down rs → down ≤ last_down down rs
last_down-le up down [] g = omega arith
last_down-le up down (r ∷ rs) (u, d, g) = omega (arith, last_down-le r.up r.down rs g)

module _ (f : Floats) where
  abbrev pub sampled : List Reading → List (Op f)
  sampled [] = []
  sampled (r ∷ rs) = sample (some (r.up, r.down)) r.now ∷ sampled rs

  -- What was counted between two states.
  record Counts (up down : ℕ) (m m' : TrafficMonitor f) : Type 0 where
    pub counted_up : m'.total_up + m'.pending_up ≡ m.total_up + m.pending_up + up
    pub counted_down : m'.total_down + m'.pending_down ≡ m.total_down + m.pending_down + down

  flush_sample-Counts :
      (since now : ℕ) (m : TrafficMonitor f)
      → m.total_up + m.pending_up < 2 ^ 64
      → m.total_down + m.pending_down < 2 ^ 64
      → Counts 0 0 m (flush_sample f since now m)
  unfolding flush_sample
  flush_sample-Counts since now m a b = omega arith

  accumulate-Counts :
      (up down prev_up prev_down : ℕ) (m : TrafficMonitor f)
      → m.previous ≡ some (prev_up, prev_down)
      → m.total_up + m.pending_up + (up - prev_up) < 2 ^ 64
      → m.total_down + m.pending_down + (down - prev_down) < 2 ^ 64
      → Counts (up - prev_up) (down - prev_down) m (accumulate f up down m)
  unfolding accumulate
  accumulate-Counts up down prev_up prev_down m e a b = simp (accumulate, e) (omega arith)

  record_some-previous :
      (up down now : ℕ) (m : TrafficMonitor f)
      → (record_some f up down now m).previous ≡ some (up, down)
  unfolding record_some accumulate flush_sample
  record_some-previous up down now m = ground arith

  record_some-Counts :
      (up down now prev_up prev_down : ℕ) (m : TrafficMonitor f)
      → m.previous ≡ some (prev_up, prev_down)
      → m.total_up + m.pending_up + (up - prev_up) < 2 ^ 64
      → m.total_down + m.pending_down + (down - prev_down) < 2 ^ 64
      → Counts (up - prev_up) (down - prev_down) m (record_some f up down now m)
  unfolding record_some
  record_some-Counts up down now prev_up prev_down m e a b =
      let counts = accumulate-Counts up down prev_up prev_down m e a b in
      elim (Option-cases m.last_sample) [
        | inl l ↦
            simp (record_some, l)
              (record { counted_up = counts.counted_up; counted_down = counts.counted_down })
        | inr (last, l) ↦
            let since = now - last in
            let m' = accumulate f up down m in
            let flushed =
              flush_sample-Counts since now m' (omega (arith, counts.counted_up))
                (omega (arith, counts.counted_down)) in
            elim (Bool-cases (leb sample_interval since)) [
              | inl t ↦ simp (record_some, l, t) (omega (arith, flushed, counts))
              | inr t ↦ simp (record_some, l, t) counts
            ]
      ]

  -- The first reading sets the baseline only.
  first-Counts :
      (up down now : ℕ) (m : TrafficMonitor f)
      → m.previous ≡ none
      → m.last_sample ≡ none
      → Counts 0 0 m (record_some f up down now m)
  unfolding record_some accumulate
  first-Counts up down now m e l = simp (record_some, accumulate, e, l) (omega arith)

  run_lem :
      (rs : List Reading) (up down : ℕ) (m : TrafficMonitor f)
      → m.previous ≡ some (up, down)
      → IsGrowing up down rs
      → m.total_up + m.pending_up + (last_up up rs - up) < 2 ^ 64
      → m.total_down + m.pending_down + (last_down down rs - down) < 2 ^ 64
      → Counts (last_up up rs - up) (last_down down rs - down) m (run f (sampled rs) m)
  unfolding run record_at
  run_lem [] up down m e g a b = omega arith
  run_lem (r ∷ rs) up down m e (gu, gd, g) a b =
      let lu = last_up-le r.up r.down rs g in
      let ld = last_down-le r.up r.down rs g in
      let m' = record_some f r.up r.down r.now m in
      let step =
        record_some-Counts r.up r.down r.now up down m e (omega (arith, lu, a))
          (omega (arith, ld, b)) in
      let rest =
        run_lem rs r.up r.down m' (record_some-previous r.up r.down r.now m) g
          (omega (arith, step, lu, a)) (omega (arith, step, ld, b)) in
      omega (arith, step, rest, lu, ld, gu, gd)

  -- Where no core was running before and the totals stay below 2 ^ 64: after any readings of counters
  -- that never go back, at whatever times, the totals together with what waits for the next sample
  -- have grown by exactly what the counters did since the first reading.
  pub run-totals :
      (first : Reading) (rs : List Reading) (m : TrafficMonitor f)
      → m.previous ≡ none
      → m.pending_up ≡ 0
      → m.pending_down ≡ 0
      → m.last_sample ≡ none
      → IsGrowing first.up first.down rs
      → m.total_up + (last_up first.up rs - first.up) < 2 ^ 64
      → m.total_down + (last_down first.down rs - first.down) < 2 ^ 64
      → ((run f (sampled (first ∷ rs)) m).total_up + (run f (sampled (first ∷ rs)) m).pending_up
          ≡ m.total_up + (last_up first.up rs - first.up))
        × ((run f (sampled (first ∷ rs)) m).total_down
              + (run f (sampled (first ∷ rs)) m).pending_down
            ≡ m.total_down + (last_down first.down rs - first.down))
  unfolding run record_at
  run-totals first rs m e pu pd l g a b =
      let m' = record_some f first.up first.down first.now m in
      let started = first-Counts first.up first.down first.now m e l in
      let rest =
        run_lem rs first.up first.down m' (record_some-previous first.up first.down first.now m) g
          (omega (arith, started, pu, a)) (omega (arith, started, pd, b)) in
      omega (arith, started, rest, pu, pd)
