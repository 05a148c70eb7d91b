-- ===== src/Gui/Traffic.antt =====
-- gui/src/traffic.rs: the monitor that turns cumulative byte counters into speeds and totals. The
-- arithmetic of `f64` is a parameter; times are in nanoseconds.
pub mod Totals
use juicity_rs.Base.{
  ℕ, ◌≡◌, ◌+◌, ◌-◌, ◌%◌, ◌^◌, List, [], ◌∷◌, ◌++◌, Option, none, some, is_some, Bool, true, false,
  not, ◌&&◌, ◌||◌, if◌then◌else◌, ◌==◌, leb, length, drop, min, map,
}

pub record Floats : Type 1 where
  pub F64 : Type 0
  pub zero : F64
  -- bytes by a duration in nanoseconds, `as f64 / since.as_secs_f64().max(0.001)`
  pub per_second : ℕ → ℕ → F64
  pub equal : F64 → F64 → Bool
  pub fmax : F64 → F64 → F64

-- `HISTORY` and `SAMPLE_INTERVAL`
abbrev pub history : ℕ
history = 60

abbrev pub sample_interval : ℕ
sample_interval = 1000000000

-- `u64::saturating_add`
abbrev pub saturating_add : ℕ → ℕ → ℕ
saturating_add a b = min (a + b) (2 ^ 64 - 1)

module _ (f : Floats) where
  open f use {F64}

  pub record Speed : Type 0 where
    pub up : F64
    pub down : F64

  -- `Speed::default()`
  abbrev pub no_speed : Speed
  no_speed = record { up = f.zero; down = f.zero }

  abbrev pub speed_eq : Speed → Speed → Bool
  speed_eq s t = f.equal s.up t.up && f.equal s.down t.down

  -- `Data` with the counter of versions beside it.
  pub record TrafficMonitor : Type 0 where
    pub samples : List Speed
    pub total_up : ℕ
    pub total_down : ℕ
    pub previous : Option (ℕ × ℕ)
    pub pending_up : ℕ
    pub pending_down : ℕ
    pub last_sample : Option ℕ
    pub current : Speed
    pub active : Bool
    pub version : ℕ

  pub record TrafficSnapshot : Type 0 where
    pub samples : List Speed
    pub total_up : ℕ
    pub total_down : ℕ
    pub current : Speed
    pub peak_up : F64
    pub peak_down : F64

  -- `fold(0.0, f64::max)`
  abbrev pub peak_of : F64 → List F64 → F64
  peak_of acc [] = acc
  peak_of acc (x ∷ xs) = peak_of (f.fmax acc x) xs

  unfoldable pub snapshot : TrafficMonitor → TrafficSnapshot
  snapshot m = record {
    samples = m.samples;
    total_up = m.total_up;
    total_down = m.total_down;
    current = m.current;
    peak_up = peak_of f.zero (map (λ (s : Speed). s.up) m.samples);
    peak_down = peak_of f.zero (map (λ (s : Speed). s.down) m.samples);
  }

  unfoldable pub push_sample : List Speed → Speed → List Speed
  push_sample samples speed =
      (if length samples == history then drop 1 samples else samples) ++ (speed ∷ [])

  -- `fetch_add(1)` on the counter, where something changed. The source adds after it has dropped the
  -- lock; a reader in between, who has the new data with the old version, is left out.
  abbrev pub bump : Bool → TrafficMonitor → TrafficMonitor
  bump changed m = if changed then record m { version = (m.version + 1) % 2 ^ 64 } else m

  -- No core is running.
  unfoldable pub record_none : TrafficMonitor → TrafficMonitor
  unfolding push_sample
  record_none m =
      let changed = is_some m.previous || (not (speed_eq m.current no_speed) || m.active) in
      let m' =
        if changed
        then record m {
          current = no_speed;
          active = false;
          samples = push_sample m.samples no_speed;
        }
        else m in
      bump changed
        (record m' { previous = none; pending_up = 0; pending_down = 0; last_sample = none })

  -- The deltas since the reading before, with the new baseline.
  unfoldable pub accumulate : ℕ → ℕ → TrafficMonitor → TrafficMonitor
  accumulate up down m =
      let m' : TrafficMonitor = elim m.previous [
        | none ↦ m
        | some (prev_up, prev_down) ↦ record m {
          pending_up = (m.pending_up + (up - prev_up)) % 2 ^ 64;
          pending_down = (m.pending_down + (down - prev_down)) % 2 ^ 64;
        }
      ] in
      record m' { previous = some (up, down); active = true }

  -- The sample of one interval, or of a longer one.
  unfoldable pub flush_sample : ℕ → ℕ → TrafficMonitor → TrafficMonitor
  unfolding push_sample
  flush_sample since now m =
      let speed : Speed = record {
        up = f.per_second m.pending_up since;
        down = f.per_second m.pending_down since;
      } in
      record m {
        total_up = saturating_add m.total_up m.pending_up;
        total_down = saturating_add m.total_down m.pending_down;
        pending_up = 0;
        pending_down = 0;
        current = speed;
        last_sample = some now;
        samples = push_sample m.samples speed;
      }

  unfoldable pub record_some : ℕ → ℕ → ℕ → TrafficMonitor → TrafficMonitor
  unfolding accumulate flush_sample
  record_some up down now m =
      let m' = accumulate up down m in
      elim m.last_sample [
        | none ↦ record m' { last_sample = some now }
        | some last ↦
            if leb sample_interval (now - last)
            then bump true (flush_sample (now - last) now m')
            else m'
      ]

  unfoldable pub record_at : Option (ℕ × ℕ) → ℕ → TrafficMonitor → TrafficMonitor
  unfolding record_none record_some
  record_at none now m = record_none m
  record_at (some (up, down)) now m = record_some up down now m

  unfoldable pub reset : TrafficMonitor → TrafficMonitor
  reset m = bump (not (speed_eq m.current no_speed)) (record m {
    previous = none;
    pending_up = 0;
    pending_down = 0;
    last_sample = none;
    current = no_speed;
    active = false;
  })

  -- A sample of the timer, or the replacement of the core.
  pub data Op : Type 0 where
    sample : Option (ℕ × ℕ) → ℕ → Op
    replaced : Op

  unfoldable pub run : List Op → TrafficMonitor → TrafficMonitor
  unfolding record_at reset
  run [] m = m
  run (sample cumulative now ∷ ops) m = run ops (record_at cumulative now m)
  run (replaced ∷ ops) m = run ops (reset m)
